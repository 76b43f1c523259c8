-- ===== src/Linker/Success.antt =====
-- When link_shared_object of src/backend/linker.cpp succeeds.
use olproff_fastsbc_hmr.Base.{
  ℕ, true, none, some, List, ◌==◌, ◌≡◌, ◌↔◌, refl, ap, arith, Bool-cases, inl, inr, ==_iff,
}
use olproff_fastsbc_hmr.Text.{Bytes, codes}
use olproff_fastsbc_hmr.Linker.{
  ObjectCode, LinkOptions, Answer, value, failed, Status, exited, signalled, System, TempFile,
  template, temp_of, create_temp, driver_of, link_args, waited, spawned, run_driver, with_log,
  logged, with_object, linked, link_shared_object,
}

-- The driver's command for an object file.
abbrev command : System → LinkOptions → ℕ → Bytes → List Bytes
command sys opts fd path =
    link_args (driver_of sys opts) (record { path = path; fd = some fd }) opts

-- Every stage does what it is to do: both files are created, the object is opened and written, and the
-- driver is started and ends with 0.
pub data Succeeds (sys : System) (obj : ObjectCode) (opts : LinkOptions) : Type 0 where
  succeeds :
      (fd log_fd pid : ℕ) (path log : Bytes)
      → sys.mkstemps (template sys (codes ".o")) 2 ≡ value (fd, path)
      → sys.opens path ≡ true
      → sys.writes path obj.bytes ≡ true
      → sys.mkstemps (template sys (codes ".log")) 4 ≡ value (log_fd, log)
      → sys.spawn
          (driver_of sys opts)
          (link_args (driver_of sys opts) (record { path = path; fd = some fd }) opts)
          log
        ≡ value pid
      → sys.waitpid pid ≡ value (exited 0)
      → Succeeds sys obj opts

waited_none :
    (sys : System) (driver : Bytes) (f : TempFile) (pid : ℕ) (a : Answer Status)
    → (waited sys driver f pid a).0 ≡ none
    → a ≡ value (exited 0)
unfolding waited
waited_none sys driver f pid (failed errno) h = absurd (ground arith)
waited_none sys driver f pid (value signalled) h = absurd (ground arith)
waited_none sys driver f pid (value (exited code)) h = elim (Bool-cases (code == 0)) [
  | inl zero_ ↦ ap (λ c. value (exited c)) ((==_iff code 0).0 zero_)
  | inr other_ ↦ absurd (ground (arith, rw (other_, waited) at h))
]

module _ (sys : System) (obj : ObjectCode) (opts : LinkOptions) where
  spawned_none :
      (driver : Bytes) (f : TempFile) (a : Answer ℕ)
      → (spawned sys driver f a).0 ≡ none
      → (pid : ℕ) × (a ≡ value pid) × (sys.waitpid pid ≡ value (exited 0))
  unfolding spawned
  spawned_none driver f (failed rc) h = absurd (ground arith)
  spawned_none driver f (value pid) h =
      (pid, refl, waited_none sys driver f pid (sys.waitpid pid) h)

  -- What follows the object file: the log, the driver and its end.
  abbrev Driven : ℕ → Bytes → Type 0
  Driven fd path =
      (log_fd pid : ℕ) × (log : Bytes) × (sys.mkstemps (template sys (codes ".log")) 4
        ≡ value (log_fd, log))
      × (sys.spawn (driver_of sys opts) (command sys opts fd path) log ≡ value pid)
      × (sys.waitpid pid ≡ value (exited 0))

  logged_none :
      (fd : ℕ) (path : Bytes) (a : Answer (ℕ × Bytes))
      → sys.mkstemps (template sys (codes ".log")) 4 ≡ a
      → (logged sys opts (record { path = path; fd = some fd }) (temp_of sys a)).0 ≡ none
      → Driven fd path
  unfolding logged temp_of with_log run_driver
  logged_none fd path (failed errno) log_ h = absurd (ground arith)
  logged_none fd path (value (log_fd, log)) log_ h =
      let driver = driver_of sys opts in
      let answer = sys.spawn driver (command sys opts fd path) log in
      let (pid, spawn_, wait_) =
        spawned_none driver (record { path = log; fd = some log_fd }) answer h in
      (log_fd, pid, log, log_, spawn_, wait_)

  object_none :
      (fd : ℕ) (path : Bytes)
      → (with_object sys obj opts (record { path = path; fd = some fd })).0 ≡ none
      → (sys.opens path ≡ true) × (sys.writes path obj.bytes ≡ true) × Driven fd path
  unfolding with_object create_temp
  object_none fd path h = elim (Bool-cases (sys.opens path)) [
    | inr shut_ ↦ absurd (ground (arith, rw (shut_, with_object) at h))
    | inl opens_ ↦ elim (Bool-cases (sys.writes path obj.bytes)) [
      | inr fails_ ↦ absurd (ground (arith, rw (opens_, fails_, with_object) at h))
      | inl writes_ ↦ (
        opens_,
        writes_,
        logged_none fd path (sys.mkstemps (template sys (codes ".log")) 4) refl
            (rw (opens_, writes_, with_object) at h),
      )
    ]
  ]

  linked_none :
      (a : Answer (ℕ × Bytes))
      → sys.mkstemps (template sys (codes ".o")) 2 ≡ a
      → (linked sys obj opts (temp_of sys a)).0 ≡ none
      → Succeeds sys obj opts
  unfolding linked temp_of
  linked_none (failed errno) object_ h = absurd (ground arith)
  linked_none (value (fd, path)) object_ h =
      let (opens_, writes_, driven) = object_none fd path h in
      let (log_fd, pid, log, log_, spawn_, wait_) = driven in
      succeeds fd log_fd pid path log object_ opens_ writes_ log_ spawn_ wait_

  Succeeds-linked : Succeeds sys obj opts → (link_shared_object sys obj opts).0 ≡ none
  unfolding link_shared_object linked temp_of create_temp with_object logged with_log run_driver
      spawned waited
  Succeeds-linked (succeeds fd log_fd pid path log object_ opens_ writes_ log_ spawn_ wait_) =
      rw (object_, opens_, writes_, log_, spawn_, wait_) refl

  -- For every system: linking gives no error exactly where both temporary files are created, the object is
  -- opened and written, and the driver is started on the command for it and ends with 0.
  pub link-Succeeds : ((link_shared_object sys obj opts).0 ≡ none) ↔ Succeeds sys obj opts
  unfolding link_shared_object create_temp
  link-Succeeds =
      ((λ h. linked_none (sys.mkstemps (template sys (codes ".o")) 2) refl h), Succeeds-linked)
