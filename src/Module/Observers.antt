-- ===== src/Module/Observers.antt =====
-- The results of load and the events that observers get (src/module/module_manager.cpp).
use olproff_fastsbc_hmr.Base.{
  ℕ, suc, Option, none, some, List, [], ◌∷◌, ◌++◌, ◌==◌, ==_iff, ==_refl, ◌≡◌, refl, inl, inr,
  if◌then◌else◌, Bool-cases,
}
use olproff_fastsbc_hmr.Text.{Bytes}
use olproff_fastsbc_hmr.Runtime.{HmrModuleInfo}
use olproff_fastsbc_hmr.Module.{
  LoadedModule, ModuleEvent, load_failed, Opened, failed, library, ModuleManager, LoadResult, ok,
  err, erase, deliveries, notify, dlclose, referenced, released, fail, publish, is_reload,
  load_library, load, abi_version,
}
use olproff_fastsbc_hmr.Module.Lifetime.{dlopened}

abbrev pub failure : Bytes → Bytes → ModuleEvent
failure path msg = record { kind = load_failed; path = path; module_name = []; error = msg }

module _ {F : Type 0} where
  -- What a load gives: the module is current, and its event went to every observer; or an error, with
  -- the current module, the snapshots and the open handles as they were, and its event.
  abbrev pub Outcome : ModuleManager F → Bytes → LoadResult F × ModuleManager F → Type 0
  Outcome m path (ok l, m') =
      (m'.current ≡ some l)
      × (l.path ≡ path)
      × (l.info.abi_version ≡ abi_version)
      × (m'.delivered
          ≡ m.delivered
            ++ deliveries
                (record {
                  kind = is_reload m.current;
                  path = path;
                  module_name = l.info.name;
                  error = [];
                })
                m.observers)
  Outcome m path (err msg, m') =
      (m'.current ≡ m.current)
      × (m'.snapshots ≡ m.snapshots)
      × (m'.opened ≡ m.opened)
      × (m'.delivered ≡ m.delivered ++ deliveries (failure path msg) m.observers)

  fail-Outcome :
      (path msg : Bytes) (m : ModuleManager F) → Outcome m path (fail m.next path msg (dlopened m))
  unfolding fail notify dlclose erase
  fail-Outcome path msg m = (refl, refl, rw (==_refl m.next) refl, refl)

  -- Destroying a module changes only the open handles.
  released_fields :
      (o : Option (LoadedModule F)) (m : ModuleManager F)
      → ((released o m).current ≡ m.current)
        × ((released o m).delivered ≡ m.delivered)
        × ((released o m).observers ≡ m.observers)
  unfolding released dlclose
  released_fields none m = (refl, refl, refl)
  released_fields (some l) m = elim (Bool-cases (referenced l.handle m)) [
    | inl left ↦ rw left (refl, refl, refl)
    | inr last ↦ rw last (refl, refl, refl)
  ]

  load_library-Outcome :
      (path : Bytes) (f : Option F) (i : Option HmrModuleInfo) (m : ModuleManager F)
      → Outcome m path (load_library path m.next f i (dlopened m))
  unfolding load_library notify publish
  load_library-Outcome path none i m = fail-Outcome path _ m
  load_library-Outcome path (some f) none m = fail-Outcome path _ m
  load_library-Outcome path (some f) (some i) m = elim (Bool-cases (i.abi_version == abi_version)) [
    | inl same ↦
        let l : LoadedModule F = record { handle = m.next; apply_fn = f; info = i; path = path } in
        let kept =
          released_fields m.current
            (record (dlopened m) { current = some l; snapshots = l ∷ m.snapshots }) in
        rw same (kept.0, refl, (==_iff _ _).0 same, rw (kept.1, kept.2) refl)
    | inr other ↦ rw other (fail-Outcome path _ m)
  ]

  -- A load that succeeds makes its module current and tells every observer that it was loaded, or
  -- reloaded if there was a current module; its ABI version is the host's. A load that fails, whether
  -- at dlopen, at a symbol or at the ABI version, leaves the current module, the snapshots and the open
  -- handles as they were, and tells every observer.
  pub load-Outcome :
      (path : Bytes) (o : Opened F) (m : ModuleManager F) → Outcome m path (load path o m)
  unfolding load notify
  load-Outcome path (failed e) m = (refl, refl, refl, refl)
  load-Outcome path (library f i) m = load_library-Outcome path f i m

-- How often an observer is called.
unfoldable pub calls_of : ℕ → List (ℕ × ModuleEvent) → ℕ
calls_of o [] = 0
calls_of o ((p, e) ∷ ds) = let n = calls_of o ds in if p == o then suc n else n
