-- ===== src/Linker/Protocol.antt =====
-- The temporary files of src/backend/linker.cpp, on every path through the function.
use olproff_fastsbc_hmr.Base.{
  ℕ, true, false, some, List, [], ◌∷◌, ◌++◌, ◌==◌, if◌then◌else◌, length, ◌≡◌, refl, Bool-cases,
  inl, inr,
}
use olproff_fastsbc_hmr.Text.{Bytes, codes, same_text}
use olproff_fastsbc_hmr.Linker.{
  ObjectCode, LinkOptions, Answer, value, failed, System, TempFile, template, Status, waited,
  spawned, logged, linked, temp_of, create_temp, driver_of, link_args, run_driver, with_log,
  with_object, link_shared_object, succeeded,
}
use olproff_fastsbc_hmr.Linker.Monitor.{
  among, monitor, KeepsLength, text_refl, create_temp-path, bracket,
}

waited-held :
    (sys : System) (driver : Bytes) (f : TempFile) (pid : ℕ) (held : List TempFile)
    (a : Answer Status)
    → monitor (waited sys driver f pid a).1 (f ∷ held) ≡ some (f ∷ held)
unfolding waited monitor
waited-held sys driver f pid held (failed errno) = refl
waited-held sys driver f pid held (value status) = elim (Bool-cases (succeeded status)) [
  | inl good_ ↦ rw good_ refl
  | inr bad_ ↦ rw (bad_, text_refl f.path) refl
]

spawned-held :
    (sys : System) (driver : Bytes) (f : TempFile) (held : List TempFile) (a : Answer ℕ)
    → monitor (spawned sys driver f a).1 (f ∷ held) ≡ some (f ∷ held)
unfolding spawned monitor
spawned-held sys driver f held (failed rc) = refl
spawned-held sys driver f held (value pid) = waited-held sys driver f pid held (sys.waitpid pid)

among_skip :
    (text a : Bytes) (args : List Bytes) → among text args ≡ true → among text (a ∷ args) ≡ true
unfolding among
among_skip text a args h = elim (Bool-cases (same_text text a)) [
  | inl same_ ↦ rw same_ refl
  | inr other_ ↦ rw (other_, h) refl
]

among_here : (text : Bytes) (args : List Bytes) → among text (text ∷ args) ≡ true
unfolding among
among_here text args = rw (text_refl text) refl

-- The output and its name stand before the object.
output-among :
    (g : TempFile) (opts : LinkOptions)
    → among g.path (codes "-o" ∷ opts.output_path ∷ g.path ∷ opts.extra_args) ≡ true
output-among g opts =
    let object = g.path ∷ opts.extra_args in
    among_skip g.path (codes "-o") (opts.output_path ∷ object)
      (among_skip g.path opts.output_path object (among_here g.path opts.extra_args))

link_args-among :
    (driver : Bytes) (g : TempFile) (opts : LinkOptions)
    → among g.path (link_args driver g opts) ≡ true
unfolding link_args
link_args-among driver g opts =
    let output = codes "-o" ∷ opts.output_path ∷ g.path ∷ opts.extra_args in
    let strip = codes "-Wl,--strip-debug" in
    elim opts.strip_debug
      as (λ b.
        among g.path ((driver ∷ codes "-shared" ∷ []) ++ ((if b then strip ∷ [] else []) ++ output))
        ≡ true) [
          | true ↦ among_skip g.path driver (codes "-shared" ∷ strip ∷ output) (
              among_skip g.path (codes "-shared") (strip ∷ output)
                (among_skip g.path strip output (output-among g opts)))
          | false ↦
              among_skip g.path driver (codes "-shared" ∷ output)
                (among_skip g.path (codes "-shared") output (output-among g opts))
        ]

with_log-held :
    (sys : System) (opts : LinkOptions) (g : TempFile) (fd : ℕ) (path : Bytes)
    → (length path == 0) ≡ false
    → monitor (with_log sys opts g (record { path = path; fd = some fd })).1 (g ∷ [])
      ≡ some (g ∷ [])
unfolding with_log run_driver
with_log-held sys opts g fd path named =
    let f : TempFile = record { path = path; fd = some fd } in
    let driver = driver_of sys opts in
    bracket fd path (run_driver sys driver (link_args driver g opts) f).1 (g ∷ []) named (
      unfold monitor in
      rw (text_refl path, link_args-among driver g opts)
        (spawned-held sys driver f (g ∷ []) (sys.spawn driver (link_args driver g opts) path)))

logged-held :
    (sys : System) (keeps : KeepsLength sys) (opts : LinkOptions) (g : TempFile) (n : ℕ)
    (a : Answer (ℕ × Bytes))
    → sys.mkstemps (template sys (codes ".log")) n ≡ a
    → monitor (logged sys opts g (temp_of sys a)).1 (g ∷ []) ≡ some (g ∷ [])
unfolding logged temp_of
logged-held sys keeps opts g n (failed errno) h = unfold monitor in refl
logged-held sys keeps opts g n (value (fd, path)) h =
    with_log-held sys opts g fd path (create_temp-path sys keeps (codes ".log") n fd path h)

with_object-held :
    (sys : System) (keeps : KeepsLength sys) (obj : ObjectCode) (opts : LinkOptions) (g : TempFile)
    → monitor (with_object sys obj opts g).1 (g ∷ []) ≡ some (g ∷ [])
unfolding with_object create_temp monitor
with_object-held sys keeps obj opts g =
    let log = sys.mkstemps (template sys (codes ".log")) (length (codes ".log")) in
    elim (Bool-cases (sys.opens g.path)) [
      | inr shut_ ↦ rw shut_ refl
      | inl opens_ ↦ elim (Bool-cases (sys.writes g.path obj.bytes)) [
        | inr fails_ ↦ rw (opens_, fails_, text_refl g.path) refl
        | inl writes_ ↦
            rw (opens_, writes_, text_refl g.path)
              (logged-held sys keeps opts g (length (codes ".log")) log refl)
      ]
    ]

linked-held :
    (sys : System) (keeps : KeepsLength sys) (obj : ObjectCode) (opts : LinkOptions) (n : ℕ)
    (a : Answer (ℕ × Bytes))
    → sys.mkstemps (template sys (codes ".o")) n ≡ a
    → monitor (linked sys obj opts (temp_of sys a)).1 [] ≡ some []
unfolding linked temp_of
linked-held sys keeps obj opts n (failed errno) h = unfold monitor in refl
linked-held sys keeps obj opts n (value (fd, path)) h =
    let g : TempFile = record { path = path; fd = some fd } in
    bracket fd path (with_object sys obj opts g).1 []
      (create_temp-path sys keeps (codes ".o") n fd path h) (with_object-held sys keeps obj opts g)

-- Where mkstemps keeps the length of its template: whatever fails on the way, the calls of
-- link_shared_object pass the monitor, and no temporary file is left: each one that was created is closed
-- once and then removed, and the driver is started while the object and the log are there, with the object
-- among its arguments.
pub link-monitor :
    (sys : System)
    → KeepsLength sys
    → (obj : ObjectCode) (opts : LinkOptions)
    → monitor (link_shared_object sys obj opts).1 [] ≡ some []
unfolding link_shared_object create_temp
link-monitor sys keeps obj opts =
    linked-held sys keeps obj opts (length (codes ".o"))
      (sys.mkstemps (template sys (codes ".o")) (length (codes ".o"))) refl
