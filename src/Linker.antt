-- ===== src/Linker.antt =====
-- src/backend/linker.cpp and include/hmr/backend/linker.hpp. The calls that the code makes of the system
-- are given back in order beside the result; what the system answers is an argument. The object is the
-- record of include/hmr/backend/backend.hpp.
pub mod Monitor
pub mod Protocol
pub mod Success
use olproff_fastsbc_hmr.Base.{
  ℕ, Bool, true, false, not, Option, none, some, List, [], ◌∷◌, ◌++◌, ◌==◌, if◌then◌else◌, length,
}
use olproff_fastsbc_hmr.Text.{Bytes, codes}
use olproff_fastsbc_hmr.Text.Number.{to_string}
use olproff_fastsbc_hmr.Diagnostics.{Error, make_error, unknown_loc}

pub record ObjectCode : Type 0 where
  pub bytes : Bytes
  pub triple : Bytes

pub record LinkOptions : Type 0 where
  pub output_path : Bytes
  pub driver : Bytes
  pub extra_args : List Bytes
  pub strip_debug : Bool

-- A value, or the errno of a call that failed.
pub data Answer (A : Type 0) : Type 0 where
  value : A → Answer A
  failed : ℕ → Answer A

-- WIFEXITED with WEXITSTATUS, or not.
pub data Status : Type 0 where
  exited : ℕ → Status
  signalled : Status

-- What the system answers. mkstemps takes a template and the size of its suffix, and gives a descriptor
-- and the path; `opens` and `writes` are the tests of the stream; `content` is the text of a file behind
-- the run of the driver.
pub record System : Type 0 where
  pub getenv : Bytes → Option Bytes
  pub strerror : ℕ → Bytes
  pub mkstemps : Bytes → ℕ → Answer (ℕ × Bytes)
  pub opens : Bytes → Bool
  pub writes : Bytes → Bytes → Bool
  pub spawn : Bytes → List Bytes → Bytes → Answer ℕ
  pub waitpid : ℕ → Answer Status
  pub content : Bytes → Bytes

-- A call that succeeded, or was tried: `spawn` has the log that the output goes to.
pub data Call : Type 0 where
  created : ℕ → Bytes → Call
  close : ℕ → Call
  unlink : Bytes → Call
  write : Bytes → Bytes → Call
  spawn : Bytes → List Bytes → Bytes → Call
  wait : ℕ → Call
  read : Bytes → Call

-- `fd` is `none` for -1.
pub record TempFile : Type 0 where
  pub path : Bytes
  pub fd : Option ℕ

abbrev close_fd : Option ℕ → List Call
close_fd none = []
close_fd (some fd) = close fd ∷ []

-- TempFile::reset, which the destructor calls.
unfoldable pub reset : TempFile → List Call
reset tf = close_fd tf.fd ++ (if length tf.path == 0 then [] else unlink tf.path ∷ [])

-- `if (const char *e = getenv(name); e && *e) return e; return otherwise;`
unfoldable pub env_or : System → Bytes → Bytes → Bytes
env_or sys name otherwise = elim (sys.getenv name) [
  | none ↦ otherwise
  | some e ↦ if length e == 0 then otherwise else e
]

unfoldable pub tmp_dir : System → Bytes
unfolding env_or
tmp_dir sys = env_or sys (codes "TMPDIR") (codes "/tmp")

unfoldable pub template : System → Bytes → Bytes
unfolding tmp_dir
template sys suffix = tmp_dir sys ++ (codes "/hmrlinkXXXXXX" ++ suffix)

-- create_temp on a fresh TempFile: the file, or the text of `err`.
pub data Temp : Type 0 where
  temp : TempFile → Temp
  no_temp : Bytes → Temp

unfoldable pub temp_of : System → Answer (ℕ × Bytes) → Temp
temp_of sys (failed errno) = no_temp (codes "linker: mkstemps failed: " ++ sys.strerror errno)
temp_of sys (value (fd, path)) = temp (record { path = path; fd = some fd })

unfoldable pub create_temp : System → Bytes → Temp
unfolding template temp_of
create_temp sys suffix = temp_of sys (sys.mkstemps (template sys suffix) (length suffix))

-- The calls of a successful create_temp.
abbrev opened : Option ℕ → Bytes → List Call
opened none path = []
opened (some fd) path = created fd path ∷ []

abbrev pub created_by : TempFile → List Call
created_by tf = opened tf.fd tf.path

unfoldable pub driver_of : System → LinkOptions → Bytes
unfolding env_or
driver_of sys opts =
    if length opts.driver == 0 then env_or sys (codes "HMR_CC") (codes "cc") else opts.driver

-- The vector `args`; -Wl,--strip-debug is inserted before the third.
unfoldable pub link_args : Bytes → TempFile → LinkOptions → List Bytes
link_args driver obj_file opts =
    (driver ∷ codes "-shared" ∷ [])
    ++ ((if opts.strip_debug then codes "-Wl,--strip-debug" ∷ [] else [])
        ++ ((codes "-o" ∷ opts.output_path ∷ obj_file.path ∷ []) ++ opts.extra_args))

-- The result (the error, if there is one), and the calls.
abbrev pub Linked : Type 0
Linked = Option Error × List Call

abbrev fail : Bytes → Option Error
fail text = some (make_error text unknown_loc)

abbrev exit_text : Status → Bytes
exit_text (exited code) = to_string code
exit_text signalled = codes "-1"

abbrev succeeded : Status → Bool
succeeded (exited code) = code == 0
succeeded signalled = false

-- What follows waitpid.
unfoldable pub waited : System → Bytes → TempFile → ℕ → Answer Status → Linked
unfolding make_error to_string
waited sys driver log_file pid (failed errno) =
    (fail (codes "linker: waitpid failed: " ++ sys.strerror errno), wait pid ∷ [])
waited sys driver log_file pid (value status) =
    if succeeded status then (none, wait pid ∷ []) else (
      fail (
          codes "linker: '"
          ++ (driver
              ++ (codes "' failed (exit "
                  ++ (exit_text status ++ (codes ")\n" ++ sys.content log_file.path))))),
      wait pid ∷ read log_file.path ∷ [],
    )

-- What follows posix_spawnp.
unfoldable pub spawned : System → Bytes → TempFile → Answer ℕ → Linked
unfolding make_error waited
spawned sys driver log_file (failed rc) =
    (fail (codes "linker: cannot spawn '" ++ (driver ++ (codes "': " ++ sys.strerror rc))), [])
spawned sys driver log_file (value pid) = waited sys driver log_file pid (sys.waitpid pid)

unfoldable pub run_driver : System → Bytes → List Bytes → TempFile → Linked
unfolding spawned
run_driver sys driver args log_file =
    let (r, calls) = spawned sys driver log_file (sys.spawn driver args log_file.path) in
    (r, spawn driver args log_file.path ∷ calls)

-- What runs while the log file is there; its destructor ends the block.
unfoldable pub with_log : System → LinkOptions → TempFile → TempFile → Linked
unfolding driver_of link_args run_driver reset
with_log sys opts obj_file log_file =
    let driver = driver_of sys opts in
    let (r, calls) = run_driver sys driver (link_args driver obj_file opts) log_file in
    (r, created_by log_file ++ (calls ++ reset log_file))

-- What follows the creation of the log file.
unfoldable pub logged : System → LinkOptions → TempFile → Temp → Linked
unfolding make_error with_log
logged sys opts obj_file (no_temp err) = (fail err, [])
logged sys opts obj_file (temp log_file) = with_log sys opts obj_file log_file

-- What runs while the object file is there.
unfoldable pub with_object : System → ObjectCode → LinkOptions → TempFile → Linked
unfolding make_error create_temp logged
with_object sys obj opts obj_file =
    if not (sys.opens obj_file.path)
    then (fail (codes "linker: cannot open temp object for writing"), [])
    else if not (sys.writes obj_file.path obj.bytes)
    then (fail (codes "linker: failed writing temp object"), write obj_file.path obj.bytes ∷ [])
    else (let (r, calls) = logged sys opts obj_file (create_temp sys (codes ".log")) in
        (r, write obj_file.path obj.bytes ∷ calls))

-- What follows the creation of the object file; its destructor ends the function.
unfoldable pub linked : System → ObjectCode → LinkOptions → Temp → Linked
unfolding make_error with_object reset
linked sys obj opts (no_temp err) = (fail err, [])
linked sys obj opts (temp obj_file) =
    let (r, calls) = with_object sys obj opts obj_file in
    (r, created_by obj_file ++ (calls ++ reset obj_file))

unfoldable pub link_shared_object : System → ObjectCode → LinkOptions → Linked
unfolding create_temp linked
link_shared_object sys obj opts = linked sys obj opts (create_temp sys (codes ".o"))
