-- ===== src/Examples/UpdateServers.antt =====
-- The order of the servers, and the walk over them, at concrete inputs.
use mathlib.Core.List.{Perm, Memᴰ, head?}
use dnst.Base.{
  ℕ, ◌≡◌, refl, true, Option, none, some, List, [], ◌∷◌, ◌++◌, ok, err, if◌then◌else◌, ◌==◌,
}
use dnst.Base.{nat_eq}
use dnst.Dns.{Rcode, noerror, servfail}
use dnst.Update.Message.{lookup_failed}
use dnst.Update.Servers.{determine_nsnames}
use dnst.Update.Servers.Order.{determine_nsnames_lem}
use dnst.Update.Send.{Report, final_answer, send_update}
use dnst.Update.Send.Walk.{
  Walk, or_exhausted, Resolved, no_names, one_name, send_update-Walk, send_update_unresolved,
}

abbrev servers : ℕ → Option (List ℕ)
servers zone = some (5 ∷ 6 ∷ 7 ∷ [])

determine_nsnames_lem_example :
    (out : List ℕ) × (determine_nsnames servers 1 7 ≡ ok out)
    × Perm out (5 ∷ 6 ∷ 7 ∷ [])
    × (Memᴰ {A = ℕ} 7 (5 ∷ 6 ∷ 7 ∷ []) → head? out ≡ some 7)
    × (¬ Memᴰ {A = ℕ} 7 (5 ∷ 6 ∷ 7 ∷ []) → out ≡ 5 ∷ 6 ∷ 7 ∷ [])
determine_nsnames_lem_example = determine_nsnames_lem servers 1 7 (5 ∷ 6 ∷ 7 ∷ []) refl

-- Server 50 fails, 51 answers SERVFAIL and 60 answers NOERROR; the name 8 has no address.
abbrev answers : ℕ → Option Rcode
answers s = if s == 60 then some noerror else if s == 51 then some servfail else none

abbrev hosts : ℕ → Option (List ℕ)
hosts n = if n == 5 then some (50 ∷ 51 ∷ []) else if n == 6 then some (60 ∷ 61 ∷ []) else none

abbrev resolved :
    Resolved (λ s. final_answer (answers s)) hosts (5 ∷ 6 ∷ []) (50 ∷ 51 ∷ 60 ∷ 61 ∷ [])
resolved = one_name refl (one_name refl no_names refl) refl

send_update-Walk_example :
    (r : Option Report) × Walk
      (λ s. final_answer (answers s))
      (50 ∷ 51 ∷ 60 ∷ 61 ∷ [])
      (send_update answers true hosts none (some (5 ∷ 6 ∷ []))).tried
      r
    × ((send_update answers true hosts none (some (5 ∷ 6 ∷ []))).result ≡ ok (or_exhausted r))
send_update-Walk_example = send_update-Walk answers hosts none resolved

send_update_unresolved_example :
    send_update answers true hosts none (some ((5 ∷ []) ++ 8 ∷ 6 ∷ []))
    ≡ record { tried = 50 ∷ 51 ∷ []; result = err lookup_failed }
send_update_unresolved_example =
    send_update_unresolved answers hosts none 8 (6 ∷ []) (one_name refl no_names refl)
      (refl, (refl, tt)) refl
