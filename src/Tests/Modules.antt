-- ===== src/Tests/Modules.antt =====
-- Modules that are loaded, read, replaced and refused.
use olproff_fastsbc_hmr.Base.{ℕ, false, some, [], ◌∷◌, ◌≡◌, refl}
use olproff_fastsbc_hmr.Text.{codes}
use olproff_fastsbc_hmr.Module.{
  LoadedModule, ModuleEvent, loaded, Opened, library, ModuleManager, contains, subscribe,
  is_current, load, acquire, new_manager,
}
use olproff_fastsbc_hmr.Module.Lifetime.{
  Reach, here, step, loads, acquires, subscribes, IsCounted, held_count, release_times,
  reached-IsCounted, replaced_closes,
}
use olproff_fastsbc_hmr.Module.Observers.{Outcome, load-Outcome}

-- A function pointer is a number.
abbrev module_of : ℕ → ℕ → Opened ℕ
module_of f version =
    library (some f)
      (some (record { abi_version = version; name = codes "m"; num_slots = 0; regexes = [] }))

abbrev subscribed : ModuleManager ℕ
subscribed = subscribe 7 (subscribe 7 new_manager)

abbrev first : ModuleManager ℕ
first = (load (codes "a.so") (module_of 1 2) subscribed).1

abbrev second : ModuleManager ℕ
second = (load (codes "b.so") (module_of 2 2) (acquire first)).1

abbrev old : LoadedModule ℕ
old = record {
  handle = 0;
  apply_fn = 1;
  info = record { abi_version = 2; name = codes "m"; num_slots = 0; regexes = [] };
  path = codes "a.so";
}

second_reached : Reach new_manager second
second_reached =
    step
      (step
        (step (step (step here (subscribes _ 7)) (subscribes _ 7))
          (loads _ (codes "a.so") (module_of 1 2)))
        (acquires _))
      (loads _ (codes "b.so") (module_of 2 2))

reached-IsCounted_example : IsCounted second
reached-IsCounted_example = reached-IsCounted second_reached

replaced : is_current 0 second.current ≡ false
unfolding load acquire subscribe
replaced = refl

replaced_closes_example :
    let after = release_times (held_count (old.handle) second.snapshots) old second in
    (contains (old.handle) after.opened ≡ false) × (after.current ≡ second.current)
replaced_closes_example = replaced_closes old second_reached replaced

two_snapshots : held_count 0 second.snapshots ≡ 2
unfolding held_count load acquire subscribe
two_snapshots = refl

both_open : second.opened ≡ 1 ∷ 0 ∷ []
unfolding load acquire subscribe
both_open = refl

load-Outcome_example : Outcome first (codes "c.so") (load (codes "c.so") (module_of 3 1) first)
load-Outcome_example = load-Outcome (codes "c.so") (module_of 3 1) first

abbrev event : ModuleEvent
event = record { kind = loaded; path = []; module_name = []; error = [] }

refused : (load (codes "c.so") (module_of 3 1) first).1.opened ≡ 0 ∷ []
unfolding load subscribe
refused = refl
