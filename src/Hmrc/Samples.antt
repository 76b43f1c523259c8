-- ===== src/Hmrc/Samples.antt =====
-- check-samples of src/tools/hmrc.cpp.
use olproff_fastsbc_hmr.Base.{
  ℕ, suc, Bool, true, false, not, ◌&&◌, Option, none, some, List, [], ◌∷◌, ◌++◌, ◌==◌,
  if◌then◌else◌, length,
}
use olproff_fastsbc_hmr.Text.{Bytes, codes, starts_with}
use olproff_fastsbc_hmr.Text.Number.{to_string}
use olproff_fastsbc_hmr.Pipeline.{Toolchain}
use olproff_fastsbc_hmr.Hmrc.{Entry, Files, Finished, Parsed, finish, c_str, parse_file}

unfoldable pub is_sample : Entry → Bool
is_sample e = e.is_regular_file && e.is_hmr

unfoldable pub samples : List Entry → List Entry
unfolding is_sample
samples [] = []
samples (e ∷ entries) = if is_sample e then e ∷ samples entries else samples entries

-- rfind("invalid_", 0) == 0
unfoldable pub expect_fail : Entry → Bool
unfolding starts_with
expect_fail e = starts_with e.filename (codes "invalid_")

abbrev ok_of : Option Parsed → Option (Bool × Bytes)
ok_of none = none
ok_of (some (none, err)) = some (false, err)
ok_of (some (some rs, err)) = some (true, err)

-- `parse_file(p, true).has_value()`, and what is written to stderr.
unfoldable pub parses : Toolchain → Files → Entry → Option (Bool × Bytes)
unfolding parse_file
parses t files e = ok_of (parse_file t files e.path true)

unfoldable pub violates : Bool → Bool → Bool
violates true expect = expect
violates false expect = not expect

unfoldable pub sample_line : Entry → Bool → Bool → Bytes
unfolding violates c_str
sample_line e good expect =
    if violates good expect
    then codes "  FAIL "
      ++ (c_str e.filename
          ++ (codes " (expected "
              ++ ((if expect then codes "parse-error" else codes "success")
                  ++ (codes ", got "
                      ++ ((if good then codes "success" else codes "parse-error")
                          ++ codes ")\n")))))
    else codes "  ok   "
      ++ (c_str e.filename
          ++ (codes " (" ++ ((if expect then codes "rejected" else codes "parsed") ++ codes ")\n")))

-- The loop, with `failures` and what is written.
pub record Checked : Type 0 where
  pub failures : ℕ
  pub out : Bytes
  pub err : Bytes

unfoldable pub check_one : Entry → Bool × Bytes → Checked → Checked
unfolding violates sample_line expect_fail
check_one e (good, err) c = record {
  failures = if violates good (expect_fail e) then suc c.failures else c.failures;
  out = c.out ++ sample_line e good (expect_fail e);
  err = c.err ++ err;
}

unfoldable pub check_loop : Toolchain → Files → List Entry → Checked → Option Checked
unfolding parses check_one
check_loop t files [] c = some c
check_loop t files (e ∷ paths) c = elim (parses t files e) [
  | none ↦ none
  | some r ↦ check_loop t files paths (check_one e r c)
]

unfoldable pub summary : ℕ → Checked → Finished
unfolding to_string
summary n c =
    finish (if c.failures == 0 then 0 else 1)
      (c.out
        ++ (to_string n
            ++ (codes " sample(s) checked, " ++ (to_string c.failures ++ codes " failure(s)\n"))))
      c.err

abbrev or_thrown : ℕ → Option Checked → Option Finished
or_thrown n none = none
or_thrown n (some c) = some (summary n c)

unfoldable pub cmd_check_samples : Toolchain → Files → Bytes → Option Finished
unfolding samples check_loop summary c_str
cmd_check_samples t files dir =
    let paths = files.sort (samples (files.entries dir)) in
    if not (files.is_directory dir)
    then some (finish 2 [] (codes "error: '" ++ (c_str dir ++ codes "' is not a directory\n")))
    else or_thrown (length paths)
        (check_loop t files paths (record { failures = 0; out = []; err = [] }))
