-- ===== src/Keyset/Rrsets/Frame.antt =====
-- What the handling of actions changes and what it leaves alone
-- (src/commands/keyset/cmd.rs, handle_actions).
use dnst.Base.{
  ℕ, String, ◌≡◌, refl, ◌∙◌, Bool, true, false, ◌||◌, List, [], ◌∷◌, Result, ok, err, any, arith,
}
use dnst.Keyset.Types.{
  Action, update_dnskey_rrset, create_cds_rrset, remove_cds_rrset, update_ds_rrset,
}
use dnst.Keyset.Workspace.{WorkSpace, KeySet}
use dnst.Keyset.Rrsets.{
  KeyStore, dnskey_records, cds_records, ds_records, update_dnskeys, create_cds, update_ds,
  remove_cds, store_dnskey, store_cds, store_ds, handle_action, on_ok, handle_actions,
}

abbrev pub writes_dnskey : Action → Bool
writes_dnskey update_dnskey_rrset = true
writes_dnskey _ = false

abbrev pub writes_cds : Action → Bool
writes_cds create_cds_rrset = true
writes_cds remove_cds_rrset = true
writes_cds _ = false

abbrev pub writes_ds : Action → Bool
writes_ds update_ds_rrset = true
writes_ds _ = false

module _ {K Name : Type 0} where
  -- What stays as it was, given which record sets may be written. If all went well, the command
  -- for DS updates is to be run exactly if it was so before or the DS record set was written.
  pub record Framed (dnskey cds ds : Bool) (ws : WorkSpace K Name) (r : Result String (Unit {0}))
      (ws' : WorkSpace K Name) : Type 0 where
    pub config : ws'.config ≡ ws.config
    pub keyset : ws'.state.keyset ≡ ws.state.keyset
    pub internal : ws'.state.internal ≡ ws.state.internal
    pub ns_rrset : ws'.state.ns_rrset ≡ ws.state.ns_rrset
    pub dnskey_rrset : dnskey ≡ false → ws'.state.dnskey_rrset ≡ ws.state.dnskey_rrset
    pub cds_rrset : cds ≡ false → ws'.state.cds_rrset ≡ ws.state.cds_rrset
    pub ds_rrset : ds ≡ false → ws'.state.ds_rrset ≡ ws.state.ds_rrset
    pub run_update_ds : r ≡ ok tt → ws'.run_update_ds_command ≡ (ws.run_update_ds_command || ds)

module _ {D K Name : Type 0} (store : KeyStore D) (lib : KeySet K) where
  store_dnskey-Framed :
      (r : Result String (List String)) (ws : WorkSpace K Name)
      → Framed true false false ws (store_dnskey store lib r ws).0 (store_dnskey store lib r ws).1
  store_dnskey-Framed (err e) ws = record {
    config = refl;
    keyset = refl;
    internal = refl;
    ns_rrset = refl;
    dnskey_rrset = λ _. refl;
    cds_rrset = λ _. refl;
    ds_rrset = λ _. refl;
    run_update_ds = λ h. ground arith;
  }
  store_dnskey-Framed (ok rrs) ws = record {
    config = refl;
    keyset = refl;
    internal = refl;
    ns_rrset = refl;
    dnskey_rrset = λ h. ground arith;
    cds_rrset = λ _. refl;
    ds_rrset = λ _. refl;
    run_update_ds = λ h. ground arith;
  }

  store_cds-Framed :
      (r : Result String (List String)) (ws : WorkSpace K Name)
      → Framed false true false ws (store_cds store lib r ws).0 (store_cds store lib r ws).1
  store_cds-Framed (err e) ws = record {
    config = refl;
    keyset = refl;
    internal = refl;
    ns_rrset = refl;
    dnskey_rrset = λ _. refl;
    cds_rrset = λ _. refl;
    ds_rrset = λ _. refl;
    run_update_ds = λ h. ground arith;
  }
  store_cds-Framed (ok rrs) ws = record {
    config = refl;
    keyset = refl;
    internal = refl;
    ns_rrset = refl;
    dnskey_rrset = λ _. refl;
    cds_rrset = λ h. ground arith;
    ds_rrset = λ _. refl;
    run_update_ds = λ h. ground arith;
  }

  store_ds-Framed :
      (r : Result String (List String)) (ws : WorkSpace K Name)
      → let start = record ws { run_update_ds_command = true } in
        Framed false false true ws (store_ds store lib r start).0 (store_ds store lib r start).1
  store_ds-Framed (err e) ws = record {
    config = refl;
    keyset = refl;
    internal = refl;
    ns_rrset = refl;
    dnskey_rrset = λ _. refl;
    cds_rrset = λ _. refl;
    ds_rrset = λ h. ground arith;
    run_update_ds = λ h. ground arith;
  }
  store_ds-Framed (ok rrs) ws = record {
    config = refl;
    keyset = refl;
    internal = refl;
    ns_rrset = refl;
    dnskey_rrset = λ _. refl;
    cds_rrset = λ _. refl;
    ds_rrset = λ h. ground arith;
    run_update_ds = λ h. ground arith;
  }

module _ {D K Name : Type 0} (store : KeyStore D) (lib : KeySet K) (now : ℕ) where
  handle_action-Framed :
      (a : Action) (ws : WorkSpace K Name)
      → Framed
          (writes_dnskey a)
          (writes_cds a)
          (writes_ds a)
          ws
          (handle_action store lib now a ws).0
          (handle_action store lib now a ws).1
  unfolding handle_action update_dnskeys create_cds update_ds remove_cds
  handle_action-Framed update_dnskey_rrset ws =
      store_dnskey-Framed store lib (dnskey_records store lib now ws) ws
  handle_action-Framed create_cds_rrset ws =
      store_cds-Framed store lib (cds_records store lib now ws) ws
  handle_action-Framed update_ds_rrset ws =
      store_ds-Framed store lib (ds_records store lib (record ws { run_update_ds_command = true }))
        ws
  handle_action-Framed _ ws = record {
    config = refl;
    keyset = refl;
    internal = refl;
    ns_rrset = refl;
    dnskey_rrset = λ _. refl;
    cds_rrset = λ h. ground arith;
    ds_rrset = λ _. refl;
    run_update_ds = λ _. ground arith;
  }

  -- What the rest of the actions leaves alone is left alone by all, when the first one is.
  then_Framed :
      (a : Action) (actions : List Action) (ws : WorkSpace K Name) (r : Result String (Unit {0}))
      (ws' : WorkSpace K Name)
      → Framed (writes_dnskey a) (writes_cds a) (writes_ds a) ws r ws'
      → Framed
          (any writes_dnskey actions)
          (any writes_cds actions)
          (any writes_ds actions)
          ws'
          (handle_actions store lib now actions ws').0
          (handle_actions store lib now actions ws').1
      → let end = on_ok store lib (r, ws') (handle_actions store lib now actions) in
        Framed
          (any writes_dnskey (a ∷ actions))
          (any writes_cds (a ∷ actions))
          (any writes_ds (a ∷ actions))
          ws
          end.0
          end.1
  then_Framed a actions ws (err e) ws' f g = record {
    config = f.config;
    keyset = f.keyset;
    internal = f.internal;
    ns_rrset = f.ns_rrset;
    dnskey_rrset = λ h. f.dnskey_rrset (ground arith);
    cds_rrset = λ h. f.cds_rrset (ground arith);
    ds_rrset = λ h. f.ds_rrset (ground arith);
    run_update_ds = λ h. ground arith;
  }
  then_Framed a actions ws (ok u) ws' f g = record {
    config = g.config ∙ f.config;
    keyset = g.keyset ∙ f.keyset;
    internal = g.internal ∙ f.internal;
    ns_rrset = g.ns_rrset ∙ f.ns_rrset;
    dnskey_rrset = λ h. g.dnskey_rrset (ground arith) ∙ f.dnskey_rrset (ground arith);
    cds_rrset = λ h. g.cds_rrset (ground arith) ∙ f.cds_rrset (ground arith);
    ds_rrset = λ h. g.ds_rrset (ground arith) ∙ f.ds_rrset (ground arith);
    run_update_ds = λ h. let e = g.run_update_ds h in let d = f.run_update_ds refl in ground arith;
  }

  -- Handling a list of actions changes the DNSKEY, the CDS and the DS record set only if the list
  -- has an action that writes it, and leaves the configuration, the key set, the NS record set and
  -- the reports as they were, also when an action fails. If all actions succeed, the command for
  -- DS updates is to be run exactly if it was so before or the list has the update of the DS
  -- record set.
  pub handle_actions-Framed :
      (actions : List Action) (ws : WorkSpace K Name)
      → Framed
          (any writes_dnskey actions)
          (any writes_cds actions)
          (any writes_ds actions)
          ws
          (handle_actions store lib now actions ws).0
          (handle_actions store lib now actions ws).1
  unfolding handle_actions
  handle_actions-Framed [] ws = record {
    config = refl;
    keyset = refl;
    internal = refl;
    ns_rrset = refl;
    dnskey_rrset = λ _. refl;
    cds_rrset = λ _. refl;
    ds_rrset = λ _. refl;
    run_update_ds = λ _. ground arith;
  }
  handle_actions-Framed (a ∷ actions) ws =
      then_Framed a actions ws (handle_action store lib now a ws).0
        (handle_action store lib now a ws).1 (handle_action-Framed a ws)
        (handle_actions-Framed actions (handle_action store lib now a ws).1)
