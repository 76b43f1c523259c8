-- ===== src/Module.antt =====
-- src/module/module_manager.cpp and include/hmr/module/module_manager.hpp: loading and replacing
-- modules. What dlopen and dlsym give for a path is an argument of `load`. A handle is the number of the
-- dlopen call that gave it, and `opened` holds the handles that no dlclose has taken back. The pointers
-- that std::shared_ptr counts are `current` and the list `snapshots` (those that load and current() have
-- handed out); the module is destroyed with the last of them.
pub mod Lifetime
pub mod Observers
use olproff_fastsbc_hmr.Base.{
  ℕ, suc, ◌+◌, Bool, true, false, not, ◌||◌, Option, none, some, List, [], ◌∷◌, ◌++◌, ◌==◌,
  if◌then◌else◌,
}
use olproff_fastsbc_hmr.Text.{Bytes, codes}
use olproff_fastsbc_hmr.Lowering.{to_string}
use olproff_fastsbc_hmr.Runtime.{HmrModuleInfo}

-- `F` is the type of the function pointers hmr_apply_fn.
pub record LoadedModule (F : Type 0) : Type 0 where
  pub handle : ℕ
  pub apply_fn : F
  pub info : HmrModuleInfo
  pub path : Bytes

pub data ModuleEventKind : Type 0 where
  loaded reloaded load_failed : ModuleEventKind

pub record ModuleEvent : Type 0 where
  pub kind : ModuleEventKind
  pub path : Bytes
  pub module_name : Bytes
  pub error : Bytes

-- What dlopen gives: nullptr, with the text of dlerror; or a library, with its two symbols.
pub data Opened (F : Type 0) : Type 0 where
  failed : Option Bytes → Opened F
  library : Option F → Option HmrModuleInfo → Opened F

-- `delivered` is every call of on_module_event so far, an observer by its address.
pub record ModuleManager (F : Type 0) : Type 0 where
  pub next : ℕ
  pub opened : List ℕ
  pub current : Option (LoadedModule F)
  pub snapshots : List (LoadedModule F)
  pub observers : List ℕ
  pub delivered : List (ℕ × ModuleEvent)

pub data LoadResult (F : Type 0) : Type 0 where
  ok : LoadedModule F → LoadResult F
  err : Bytes → LoadResult F

unfoldable pub contains : ℕ → List ℕ → Bool
contains x [] = false
contains x (y ∷ ys) = y == x || contains x ys

-- Takes the first occurrence out.
unfoldable pub erase : ℕ → List ℕ → List ℕ
erase x [] = []
erase x (y ∷ ys) = if y == x then ys else y ∷ erase x ys

abbrev pub abi_version : ℕ
abi_version = 2

-- notify: one call for each observer of the snapshot, in order.
unfoldable pub deliveries : ModuleEvent → List ℕ → List (ℕ × ModuleEvent)
deliveries e [] = []
deliveries e (o ∷ os) = (o, e) ∷ deliveries e os

abbrev pub missing : Bytes → Bytes → Bytes
missing path symbol =
    codes "module: '" ++ (path ++ (codes "' is missing '" ++ (symbol ++ codes "'")))

abbrev pub mismatch : Bytes → ℕ → Bytes
mismatch path v =
    codes "module: ABI mismatch in '"
    ++ (path
        ++ (codes "' (module v"
            ++ (to_string v ++ (codes ", host v" ++ (to_string abi_version ++ codes ")")))))

abbrev pub error_text : Option Bytes → Bytes
error_text none = codes "unknown error"
error_text (some e) = e

module _ {F : Type 0} where
  unfoldable pub notify : ModuleEvent → ModuleManager F → ModuleManager F
  unfolding deliveries
  notify e m = record m { delivered = m.delivered ++ deliveries e m.observers }

  -- An observer is its address, and 0 the null pointer.
  unfoldable pub subscribe : ℕ → ModuleManager F → ModuleManager F
  unfolding contains
  subscribe o m =
      if o == 0 || contains o m.observers then m else record m { observers = m.observers ++ o ∷ [] }

  unfoldable pub unsubscribe : ℕ → ModuleManager F → ModuleManager F
  unfolding erase
  unsubscribe o m = record m { observers = erase o m.observers }

  -- ::dlclose
  unfoldable pub dlclose : ℕ → ModuleManager F → ModuleManager F
  unfolding erase
  dlclose h m = record m { opened = erase h m.opened }

  abbrev pub is_current : ℕ → Option (LoadedModule F) → Bool
  is_current h none = false
  is_current h (some l) = l.handle == h

  unfoldable pub is_held : ℕ → List (LoadedModule F) → Bool
  is_held h [] = false
  is_held h (l ∷ ls) = l.handle == h || is_held h ls

  -- Whether a shared_ptr to the module of this handle is left.
  unfoldable pub referenced : ℕ → ModuleManager F → Bool
  unfolding is_held
  referenced h m = is_current h m.current || is_held h m.snapshots

  -- A shared_ptr to the module goes away; ~LoadedModule closes the handle if it was the last.
  unfoldable pub released : Option (LoadedModule F) → ModuleManager F → ModuleManager F
  unfolding referenced dlclose
  released none m = m
  released (some l) m = if referenced l.handle m then m else dlclose l.handle m

  -- The lambda `fail` of load.
  unfoldable pub fail : ℕ → Bytes → Bytes → ModuleManager F → LoadResult F × ModuleManager F
  unfolding dlclose notify
  fail h path msg m = (
    err msg,
    notify (record { kind = load_failed; path = path; module_name = []; error = msg })
        (dlclose h m),
  )

  -- The store to current_, and the shared_ptr that load returns.
  unfoldable pub publish : LoadedModule F → ModuleManager F → ModuleManager F
  unfolding released
  publish l m = released m.current (record m { current = some l; snapshots = l ∷ m.snapshots })

  abbrev pub is_reload : Option (LoadedModule F) → ModuleEventKind
  is_reload none = loaded
  is_reload (some _) = reloaded

  -- load behind a dlopen that gave the handle `h`
  unfoldable pub load_library :
      Bytes → ℕ → Option F → Option HmrModuleInfo → ModuleManager F → LoadResult F × ModuleManager F
  unfolding fail publish notify to_string
  load_library path h none info m = fail h path (missing path (codes "hmr_apply")) m
  load_library path h (some f) none m = fail h path (missing path (codes "hmr_module_info")) m
  load_library path h (some f) (some info) m =
      let l : LoadedModule F = record { handle = h; apply_fn = f; info = info; path = path } in
      if not (info.abi_version == abi_version)
      then fail h path (mismatch path info.abi_version) m
      else (
        ok l,
        notify
            (record {
              kind = is_reload m.current;
              path = path;
              module_name = info.name;
              error = [];
            })
            (publish l m),
      )

  unfoldable pub load : Bytes → Opened F → ModuleManager F → LoadResult F × ModuleManager F
  unfolding load_library notify
  load path (failed e) m =
      let msg = codes "module: dlopen('" ++ (path ++ (codes "') failed: " ++ error_text e)) in
      (
        err msg,
        notify (record { kind = load_failed; path = path; module_name = []; error = msg }) m,
      )
  load path (library f info) m =
      load_library path m.next f info (record m { next = suc m.next; opened = m.next ∷ m.opened })

  -- current(): a reader takes a snapshot.
  unfoldable pub acquire : ModuleManager F → ModuleManager F
  acquire m = elim m.current [ none ↦ m | some l ↦ record m { snapshots = l ∷ m.snapshots } ]

  -- A snapshot in the list of that handle, taken out.
  unfoldable pub drop_snapshot : ℕ → List (LoadedModule F) → List (LoadedModule F)
  drop_snapshot h [] = []
  drop_snapshot h (l ∷ ls) = if l.handle == h then ls else l ∷ drop_snapshot h ls

  -- A reader, or the caller of load, lets its snapshot `l` go.
  unfoldable pub release : LoadedModule F → ModuleManager F → ModuleManager F
  unfolding drop_snapshot released
  release l m = released (some l) (record m { snapshots = drop_snapshot l.handle m.snapshots })

  abbrev pub new_manager : ModuleManager F
  new_manager = record {
    next = 0;
    opened = [];
    current = none;
    snapshots = [];
    observers = [];
    delivered = [];
  }
