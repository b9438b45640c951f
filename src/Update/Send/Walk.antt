-- ===== src/Update/Send/Walk.antt =====
-- Which servers are contacted, and how the walk over them ends (src/commands/update.rs,
-- send_update).
use mathlib.Core.Path.{subst}
use dnst.Base.{◌≡◌, ◌≢◌, refl, true, Option, none, some, List, [], ◌∷◌, ◌++◌, ok, err, All, arith}
use dnst.Dns.{Rcode}
use dnst.Update.Message.{lookup_failed, Try}
use dnst.Update.Send.{
  Report, no_successful_responses, Sent, final_answer, send_to_sockets, after_socket, after_name,
  with_sockets, send_to_names, send_update,
}

abbrev pub or_exhausted : Option Report → Report
or_exhausted none = no_successful_responses
or_exhausted (some r) = r

module _ {Socket : Type 0} (answer : Socket → Option Report) where
  -- A list of sockets, those contacted, and the final answer: the sockets are contacted in order
  -- up to the first that gives one.
  pub data Walk : List Socket → List Socket → Option Report → Type 0 where
    exhausted : Walk [] [] none
    skip :
        {s : Socket} {ss tried : List Socket} {r : Option Report}
        → answer s ≡ none
        → Walk ss tried r
        → Walk (s ∷ ss) (s ∷ tried) r
    stop :
        {s : Socket} {ss : List Socket} {r : Report}
        → answer s ≡ some r
        → Walk (s ∷ ss) (s ∷ []) (some r)

  Walk-after_socket :
      (s : Socket) (o : Option Report) (ss : List Socket) (rest : Sent Socket (Option Report))
      → answer s ≡ o
      → Walk ss rest.tried rest.result
      → Walk (s ∷ ss) (after_socket s o rest).tried (after_socket s o rest).result
  Walk-after_socket s none ss rest e w = skip e w
  Walk-after_socket s (some r) ss rest e w = stop e

  Walk-send_to_sockets :
      (ss : List Socket)
      → Walk ss (send_to_sockets answer ss).tried (send_to_sockets answer ss).result
  unfolding send_to_sockets
  Walk-send_to_sockets [] = exhausted
  Walk-send_to_sockets (s ∷ ss) =
      Walk-after_socket s (answer s) ss (send_to_sockets answer ss) refl (Walk-send_to_sockets ss)

  Walk-append :
      {xs t : List Socket} {o : Option Report} {ys t' : List Socket} {r : Option Report}
      → Walk xs t o
      → o ≡ none
      → Walk ys t' r
      → Walk (xs ++ ys) (t ++ t') r
  Walk-append exhausted e w = w
  Walk-append (skip n v) e w = skip n (Walk-append v e w)
  Walk-append (stop a) e w = absurd (ground arith)

  Walk-append_stop :
      {xs t : List Socket} {o : Option Report} (ys : List Socket)
      → Walk xs t o
      → o ≢ none
      → Walk (xs ++ ys) t o
  Walk-append_stop ys exhausted n = absurd (n refl)
  Walk-append_stop ys (skip e w) n = skip e (Walk-append_stop ys w n)
  Walk-append_stop ys (stop e) n = stop e

module _ {Name Socket : Type 0} (answer : Socket → Option Report)
    (lookup_host : Name → Option (List Socket)) where
  -- Names whose lookups all succeed, with all their sockets in order.
  pub data Resolved : List Name → List Socket → Type 0 where
    no_names : Resolved [] []
    one_name :
        {n : Name} {ns : List Name} {ss rest all : List Socket}
        → lookup_host n ≡ some ss
        → Resolved ns rest
        → all ≡ ss ++ rest
        → Resolved (n ∷ ns) all

  Walk-after_name :
      (n : Name) (ss rest : List Socket) (t : List Socket) (o : Option Report)
      (later : Sent Socket (Try Report)) (r : Option Report)
      → Walk answer ss t o
      → Walk answer rest later.tried r
      → later.result ≡ ok (or_exhausted r)
      → (r' : Option Report) × Walk answer (ss ++ rest) (after_name t o later).tried r'
        × ((after_name t o later).result ≡ ok (or_exhausted r'))
  Walk-after_name n ss rest t none later r w v e = (r, Walk-append answer w refl v, e)
  Walk-after_name n ss rest t (some x) later r w v e =
      (some x, Walk-append_stop answer rest w (λ p. ground arith), refl)

  -- If every name resolves, the sockets of all names are tried in order up to the first with a
  -- final answer, and that answer is the result; without one, all are tried and the result says so.
  send_to_names-Walk :
      {ns : List Name} {all : List Socket}
      → Resolved ns all
      → (r : Option Report) × Walk answer all (send_to_names answer lookup_host ns).tried r
        × ((send_to_names answer lookup_host ns).result ≡ ok (or_exhausted r))
  unfolding send_to_names
  send_to_names-Walk no_names = (none, exhausted, refl)
  send_to_names-Walk (one_name {n = n} {ns = ns} {ss = ss} {rest = rest} e v a) =
      let (r, w, k) = send_to_names-Walk v in
      rw (a, e, with_sockets)
        (Walk-after_name n ss rest _ _ _ r (Walk-send_to_sockets answer ss) w k)

  send_to_sockets_silent :
      (ss : List Socket)
      → All (λ s. answer s ≡ none) ss
      → send_to_sockets answer ss ≡ record { tried = ss; result = none }
  unfolding send_to_sockets
  send_to_sockets_silent [] h = refl
  send_to_sockets_silent (s ∷ ss) h = rw (h.0, after_socket) (rw (send_to_sockets_silent ss h.1))

  All-left : (P : Socket → Type 0) (xs ys : List Socket) → All P (xs ++ ys) → All P xs
  All-left P [] ys h = tt
  All-left P (x ∷ xs) ys h = (h.0, All-left P xs ys h.1)

  All-right : (P : Socket → Type 0) (xs ys : List Socket) → All P (xs ++ ys) → All P ys
  All-right P [] ys h = h
  All-right P (x ∷ xs) ys h = All-right P xs ys h.1

  send_to_names_unresolved :
      {before : List Name} {all : List Socket} (n : Name) (after : List Name)
      → Resolved before all
      → All (λ s. answer s ≡ none) all
      → lookup_host n ≡ none
      → send_to_names answer lookup_host (before ++ n ∷ after)
        ≡ record { tried = all; result = err lookup_failed }
  unfolding send_to_names
  send_to_names_unresolved n after no_names silent e = rw (e, with_sockets)
  send_to_names_unresolved n after (one_name {ss = ss} {rest = rest} l v a) silent e =
      let both = subst (All (λ s. answer s ≡ none)) a silent in
      rw (
        l,
        with_sockets,
        send_to_sockets_silent ss (All-left _ ss rest both),
        send_to_names_unresolved n after v (All-right _ ss rest both) e,
        a,
      )

module _ {Name Socket : Type 0} (request : Socket → Option Rcode)
    (lookup_host : Name → Option (List Socket)) (nameserver : Option Socket) where
  -- With a valid key, and when the addresses of every server name are found, the update goes to
  -- the sockets of all names in order until one answers with a code other than SERVFAIL and
  -- NOTIMP. The command succeeds and reports that code, or reports, still as a success, that no
  -- server gave such an answer after it has tried all of them.
  pub send_update-Walk :
      {ns : List Name} {all : List Socket}
      → Resolved (λ s. final_answer (request s)) lookup_host ns all
      → let sent = send_update request true lookup_host nameserver (some ns) in
        (r : Option Report) × Walk (λ s. final_answer (request s)) all sent.tried r
        × (sent.result ≡ ok (or_exhausted r))
  unfolding send_update
  send_update-Walk v = send_to_names-Walk (λ s. final_answer (request s)) lookup_host v

  -- A server name whose addresses are not found ends the command with an error, once the servers
  -- before it have given no final answer: the servers behind it are never tried.
  pub send_update_unresolved :
      {before : List Name} {all : List Socket} (n : Name) (after : List Name)
      → Resolved (λ s. final_answer (request s)) lookup_host before all
      → All (λ s. final_answer (request s) ≡ none) all
      → lookup_host n ≡ none
      → send_update request true lookup_host nameserver (some (before ++ n ∷ after))
        ≡ record { tried = all; result = err lookup_failed }
  unfolding send_update
  send_update_unresolved n after v silent e =
      send_to_names_unresolved (λ s. final_answer (request s)) lookup_host n after v silent e
