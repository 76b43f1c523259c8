-- ===== src/Hmrc/Verdict.antt =====
-- check-samples of src/tools/hmrc.cpp: the exit code and the counts.
use olproff_fastsbc_hmr.Base.{
  ℕ, suc, ◌+◌, Bool, true, false, not, ◌&&◌, ◌||◌, take, some, List, [], ◌∷◌, ◌++◌, ◌==◌,
  if◌then◌else◌, length, ◌≡◌, refl, sym, ap, ap₂, ◌∙◌, arith, suc-==_false, Bool-cases, inl, inr,
}
use olproff_fastsbc_hmr.Text.{Bytes, codes, same_text, starts_with}
use olproff_fastsbc_hmr.Text.Number.{to_string}
use olproff_fastsbc_hmr.Pipeline.{Toolchain}
use olproff_fastsbc_hmr.Hmrc.{Entry, Files, Finished}
use olproff_fastsbc_hmr.Hmrc.Samples.{
  is_sample, samples, expect_fail, parses, violates, Checked, check_one, check_loop, summary,
  cmd_check_samples,
}

unfoldable pub count : (Entry → Bool) → List Entry → ℕ
count p [] = 0
count p (e ∷ es) = let n = count p es in if p e then suc n else n

-- What std::sort gives has the entries that it was given.
abbrev pub KeepsCounts : Files → Type 0
KeepsCounts files = (p : Entry → Bool) (l : List Entry) → count p (files.sort l) ≡ count p l

-- A regular file with the extension .hmr.
abbrev pub eligible : Entry → Bool
eligible e = e.is_regular_file && e.is_hmr

-- The first eight bytes of the name are `invalid_`.
abbrev pub marked : Entry → Bool
marked e = same_text (take 8 e.filename) (codes "invalid_")

-- With `k` saying which file parses: one that is marked parses, or one that is not marked is refused.
abbrev pub misnamed : (Entry → Bool × Bytes) → Entry → Bool
misnamed k e = ((k e).0 && marked e) || (not (k e).0 && not (marked e))

abbrev pub failing : (Entry → Bool × Bytes) → Entry → Bool
failing k e = eligible e && misnamed k e

starts_with_lem : (s p : Bytes) → starts_with s p ≡ same_text (take (length p) s) p
unfolding starts_with same_text
starts_with_lem [] [] = refl
starts_with_lem (x ∷ s) [] = refl
starts_with_lem [] (c ∷ p) = refl
starts_with_lem (x ∷ s) (c ∷ p) = ap (λ b. x == c && b) (starts_with_lem s p)

violates_lem :
    (good expect : Bool) → violates good expect ≡ ((good && expect) || (not good && not expect))
unfolding violates
violates_lem true true = refl
violates_lem true false = refl
violates_lem false true = refl
violates_lem false false = refl

violates-misnamed :
    (k : Entry → Bool × Bytes) (e : Entry) → violates (k e).0 (expect_fail e) ≡ misnamed k e
unfolding expect_fail
violates-misnamed k e =
    ap (violates (k e).0) (starts_with_lem e.filename (codes "invalid_"))
    ∙ violates_lem (k e).0 (marked e)

unfoldable pub named_right : (Entry → Bool × Bytes) → List Entry → Bool
named_right k [] = true
named_right k (e ∷ es) = not (failing k e) && named_right k es

named_right_lem :
    (k : Entry → Bool × Bytes) (l : List Entry) → (count (failing k) l == 0) ≡ named_right k l
unfolding count named_right
named_right_lem k [] = refl
named_right_lem k (e ∷ es) = elim (Bool-cases (failing k e)) [
  | inl bad_ ↦ rw bad_ (suc-==_false (count (failing k) es))
  | inr good_ ↦ rw good_ (named_right_lem k es)
]

count-samples :
    (p : Entry → Bool) (l : List Entry) → count p (samples l) ≡ count (λ e. eligible e && p e) l
unfolding count samples is_sample
count-samples p [] = refl
count-samples p (e ∷ es) = elim (Bool-cases (eligible e)) [
  | inl sample_ ↦ rw (sample_, count) (ap (λ n. if p e then suc n else n) (count-samples p es))
  | inr other_ ↦ rw other_ (count-samples p es)
]

length-count : (l : List Entry) → length l ≡ count (λ e. true) l
unfolding count
length-count [] = refl
length-count (e ∷ es) = ap suc (length-count es)

length-samples : (l : List Entry) → length (samples l) ≡ count eligible l
unfolding count samples is_sample
length-samples [] = refl
length-samples (e ∷ es) = elim (Bool-cases (eligible e)) [
  | inl sample_ ↦ rw sample_ (ap suc (length-samples es))
  | inr other_ ↦ rw other_ (length-samples es)
]

shift : (b : Bool) (n f : ℕ) → n + (if b then suc f else f) ≡ (if b then suc n else n) + f
shift true n f = omega arith
shift false n f = refl

-- `ends`: no exception leaves the parser on a file.
module _ (t : Toolchain) (files : Files) (k : Entry → Bool × Bytes)
    (ends : (e : Entry) → parses t files e ≡ some (k e)) where
  check_loop-failures :
      (l : List Entry) (c : Checked)
      → (c' : Checked) × (check_loop t files l c ≡ some c')
        × (c'.failures ≡ count (misnamed k) l + c.failures)
  unfolding check_loop count check_one
  check_loop-failures [] c = (c, refl, omega arith)
  check_loop-failures (e ∷ es) c =
      let (c', run_, failures_) = check_loop-failures es (check_one e (k e) c) in
      (
        c',
        rw (ends e, check_loop) run_,
        failures_
            ∙ ap (λ b. count (misnamed k) es + (if b then suc c.failures else c.failures))
                (violates-misnamed k e)
            ∙ shift (misnamed k e) (count (misnamed k) es) c.failures,
      )

  -- Where sorting keeps the entries, `dir` is a directory and no exception leaves the parser: the command
  -- ends, with code 0 if each regular .hmr file of the directory whose name begins with `invalid_` is
  -- refused and each other one parses, and with code 1 if not; and the last line has the number of those
  -- files, and of those among them that break the rule.
  pub cmd_check_samples-code :
      KeepsCounts files
      → (dir : Bytes) → files.is_directory dir ≡ true
      → (f : Finished) × (lines : Bytes) × (cmd_check_samples t files dir ≡ some f)
        × (f.code ≡ (if named_right k (files.entries dir) then 0 else 1))
        × (f.out
            ≡ lines
              ++ (to_string (count eligible (files.entries dir))
                  ++ (codes " sample(s) checked, "
                      ++ (to_string (count (failing k) (files.entries dir))
                          ++ codes " failure(s)\n"))))
  unfolding cmd_check_samples summary
  cmd_check_samples-code keeps dir is_dir =
      let paths = files.sort (samples (files.entries dir)) in
      let start : Checked = record { failures = 0; out = []; err = [] } in
      let (c, run_, failures_) = check_loop-failures paths start in
      let every = λ (e : Entry). true in
      let size =
        length-count paths
        ∙ keeps every (samples (files.entries dir))
        ∙ sym (length-count (samples (files.entries dir)))
        ∙ length-samples (files.entries dir) in
      let bare : count (misnamed k) paths + 0 ≡ count (misnamed k) paths = omega arith in
      let wrong =
        failures_
        ∙ bare
        ∙ keeps (misnamed k) (samples (files.entries dir))
        ∙ count-samples (misnamed k) (files.entries dir) in
      (
        summary (length paths) c,
        c.out,
        rw (is_dir, run_) refl,
        ap (λ n. if n == 0 then 0 else 1) wrong
            ∙ ap (λ b. if b then 0 else 1) (named_right_lem k (files.entries dir)),
        ap₂
            (λ n m.
              c.out
              ++ (to_string n
                  ++ (codes " sample(s) checked, " ++ (to_string m ++ codes " failure(s)\n"))))
            size wrong,
      )
