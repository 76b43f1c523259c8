-- ===== src/Linker/Monitor.antt =====
-- A monitor of the calls of src/backend/linker.cpp: the temporary files that are there.
use olproff_fastsbc_hmr.Base.{
  ℕ, Bool, true, false, ◌&&◌, ◌||◌, Option, none, some, List, [], ◌∷◌, ◌++◌, ◌==◌, length, ◌≡◌,
  refl, arith, length-append, Option-cases, inl, inr, ==_refl,
}
use olproff_fastsbc_hmr.Text.{Bytes, codes, same_text}
use olproff_fastsbc_hmr.Text.Fold.{same_text_iff}
use olproff_fastsbc_hmr.Linker.{
  value, System, Call, created, close, unlink, write, spawn, wait, read, TempFile, reset, template,
  tmp_dir, created_by,
}

-- `text` is one of the arguments.
unfoldable pub among : Bytes → List Bytes → Bool
among text [] = false
among text (a ∷ args) = same_text text a || among text args

abbrev pub when : Bool → List TempFile → Option (List TempFile)
when true held = some held
when false held = none

abbrev closes : ℕ → Option ℕ → Bool
closes n none = false
closes n (some fd) = n == fd

abbrev is_closed : Option ℕ → Bool
is_closed none = true
is_closed (some fd) = false

-- The temporary files that are there behind a call, newest first; `none` if the call is out of order. A
-- file is closed once, and then removed; files go in the reverse order in which they came. A file that is
-- written or read is there. The driver is started while two files are there: the newer one is its log,
-- and the older one is among its arguments.
abbrev pub step : Call → List TempFile → Option (List TempFile)
step (created fd path) held = some (record { path = path; fd = some fd } ∷ held)
step (close n) [] = none
step (close n) (f ∷ held) = when (closes n f.fd) (record f { fd = none } ∷ held)
step (unlink path) [] = none
step (unlink path) (f ∷ held) = when (is_closed f.fd && same_text path f.path) held
step (write path bytes) [] = none
step (write path bytes) (f ∷ held) = when (same_text path f.path) (f ∷ held)
step (spawn driver args log) (f ∷ g ∷ []) =
    when (same_text log f.path && among g.path args) (f ∷ g ∷ [])
step (spawn driver args log) _ = none
step (wait pid) held = some held
step (read path) [] = none
step (read path) (f ∷ held) = when (same_text path f.path) (f ∷ held)

abbrev pub and_then : {A B : Type 0} → Option A → (A → Option B) → Option B
and_then none f = none
and_then (some a) f = f a

unfoldable pub monitor : List Call → List TempFile → Option (List TempFile)
monitor [] held = some held
monitor (c ∷ calls) held = and_then (step c held) (monitor calls)

-- mkstemps only replaces letters of its template.
abbrev pub KeepsLength : System → Type 0
KeepsLength sys =
    (t : Bytes) (n fd : ℕ) (path : Bytes)
    → sys.mkstemps t n ≡ value (fd, path)
    → length path ≡ length t

pub monitor-append :
    (a b : List Call) (held : List TempFile)
    → monitor (a ++ b) held ≡ and_then (monitor a held) (monitor b)
unfolding monitor
monitor-append [] b held = refl
monitor-append (c ∷ a) b held = elim (Option-cases (step c held)) [
  | inl none_ ↦ rw none_ refl
  | inr (held', some_) ↦ rw some_ (monitor-append a b held')
]

pub text_refl : (s : Bytes) → same_text s s ≡ true
text_refl s = (same_text_iff s s).1 refl

pub create_temp-path :
    (sys : System) (keeps : KeepsLength sys) (suffix : Bytes) (n fd : ℕ) (path : Bytes)
    → sys.mkstemps (template sys suffix) n ≡ value (fd, path)
    → (length path == 0) ≡ false
unfolding template
create_temp-path sys keeps suffix n fd path h =
    let size = keeps (template sys suffix) n fd path h in
    let dir = length-append (tmp_dir sys) (codes "/hmrlinkXXXXXX" ++ suffix) in
    ground (arith, size, dir)

-- A file that was created, with what is done in between, is gone in the end.
pub bracket :
    (fd : ℕ) (path : Bytes) (calls : List Call) (held : List TempFile)
    → (length path == 0) ≡ false
    → (let f : TempFile = record { path = path; fd = some fd } in
        monitor calls (f ∷ held) ≡ some (f ∷ held)
        → monitor (created_by f ++ (calls ++ reset f)) held ≡ some held)
unfolding monitor reset
bracket fd path calls held named inside =
    rw
      (
        monitor-append calls (reset (record { path = path; fd = some fd }))
            (record { path = path; fd = some fd } ∷ held),
        inside,
        named,
        ==_refl fd,
        text_refl path,
      )
      refl
