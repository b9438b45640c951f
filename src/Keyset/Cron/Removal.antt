-- ===== src/Keyset/Cron/Removal.antt =====
-- The removal of stale keys by the subcommand `cron` (src/commands/keyset/cmd.rs).
use dnst.Base.{ℕ, String, true, Option, none, some, List, [], ◌∷◌, Result, ok, err, if◌then◌else◌}
use dnst.Keyset.Workspace.{WorkSpace, KeySet, KeySetError}
use dnst.Keyset.Run.{Machine, Method, Run, ◌>>=◌, return, from_result, on_space}
use dnst.Keyset.NewKeys.{Backend, remove_key}
use dnst.Keyset.Automation.{Stop, message, stopping}
use dnst.Keyset.Cron.Due.{removals}

module _ {K Name : Type 0} where
  abbrev pub deleted : Result KeySetError (Unit {0}) × K → Method Stop (WorkSpace K Name) (Unit {0})
  deleted (err e, keyset) ws = (
    err (message "unable to remove key"),
    record ws { state = record ws.state { keyset = keyset } },
  )
  deleted (ok u, keyset) ws = (ok tt, record ws { state = record ws.state { keyset = keyset } })

  abbrev pub mark_changed : Method Stop (WorkSpace K Name) (Unit {0})
  mark_changed ws = (ok tt, record ws { state_changed = true })

module _ {S P W K Name : Type 0} (backend : Backend S P W) where
  unfoldable pub remove_url : String → Run (Machine K Name W) (Unit {0})
  unfolding remove_key
  remove_url text = from_result (backend.parse_url text) >>= λ url. remove_key backend url

  abbrev pub remove_private : Option String → Run (Machine K Name W) (Unit {0})
  remove_private none = return tt
  remove_private (some privref) = remove_url privref

module _ {S P W K Name : Type 0} (backend : Backend S P W) (lib : KeySet K) where
  abbrev pub delete_from : String → Method Stop (WorkSpace K Name) (Unit {0})
  delete_from pubref ws = deleted (lib.delete_key ws.state.keyset pubref) ws

  -- The loop over the keys to remove.
  unfoldable pub remove_all :
      List (String × Option String) → Method Stop (Machine K Name W) (Unit {0})
  unfolding remove_url
  remove_all [] = return tt
  remove_all ((pubref, privref) ∷ urls) = on_space (delete_from pubref) >>= λ _.
      stopping (remove_private backend privref) >>= λ _.
      stopping (remove_url backend pubref) >>= λ _. remove_all urls

  abbrev pub remove_each :
      Result Stop (List (String × Option String)) → Method Stop (Machine K Name W) (Unit {0})
  remove_each (err e) m = (err e, m)
  remove_each (ok []) m = (ok tt, m)
  remove_each (ok (url ∷ urls)) m = (remove_all (url ∷ urls) >>= λ _. on_space mark_changed) m

  unfoldable pub remove_stale : ℕ → Method Stop (Machine K Name W) (Unit {0})
  unfolding removals remove_all
  remove_stale now m =
      let c = m.space.config in
      let removed =
        remove_each (removals now c.autoremove_delay (lib.keys m.space.state.keyset)) m in
      if c.autoremove then removed else (ok tt, m)
