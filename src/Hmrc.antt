-- ===== src/Hmrc.antt =====
-- src/tools/hmrc.cpp: the commands, to the exit code and what is written. The file system is an argument.
-- `none` is an exception that leaves main.
pub mod Samples
pub mod Commands
pub mod Verdict
use olproff_fastsbc_hmr.Base.{
  ℕ, suc, ◌+◌, ◌-◌, Bool, true, false, not, ◌&&◌, Option, none, some, List, [], ◌∷◌, ◌++◌, ◌==◌,
  if◌then◌else◌, length, replicate,
}
use olproff_fastsbc_hmr.Text.{Bytes, codes, same_text, starts_with}
use olproff_fastsbc_hmr.Text.Number.{to_string}
use olproff_fastsbc_hmr.Ast.{Ruleset}
use olproff_fastsbc_hmr.Ast.Printer.{to_hmr_text}
use olproff_fastsbc_hmr.Diagnostics.{Diagnostic, Error, Result, ok, unexpected, format, format_one}
use olproff_fastsbc_hmr.Parser.Build.{Parser, parser, parse}
use olproff_fastsbc_hmr.Optimizer.{OptimizationReport, optimize}
use olproff_fastsbc_hmr.Linker.{Call}
use olproff_fastsbc_hmr.Pipeline.{Toolchain}

-- A directory entry: path(), its filename(), whether it is a regular file, and whether its extension is
-- .hmr.
pub record Entry : Type 0 where
  pub path : Bytes
  pub filename : Bytes
  pub is_regular_file : Bool
  pub is_hmr : Bool

-- `read` is the content of a file that opens; `sort` is std::sort on paths.
pub record Files : Type 0 where
  pub read : Bytes → Option Bytes
  pub is_directory : Bytes → Bool
  pub entries : Bytes → List Entry
  pub sort : List Entry → List Entry

-- A finished command: main's value, stdout, stderr, and the calls of the linker.
pub record Finished : Type 0 where
  pub code : ℕ
  pub out : Bytes
  pub err : Bytes
  pub calls : List Call

-- What %s and fputs write of a string: the bytes before the first null byte.
unfoldable pub c_str : Bytes → Bytes
c_str [] = []
c_str (c ∷ s) = if c == 0 then [] else c ∷ c_str s

abbrev pub finish : ℕ → Bytes → Bytes → Finished
finish code out err = record { code = code; out = out; err = err; calls = [] }

-- `"%s: %s\n"`
unfoldable pub report : Bytes → Bytes → Bytes
unfolding c_str
report path text = c_str path ++ (codes ": " ++ (c_str text ++ b'\n' ∷ []))

unfoldable pub cannot_read : Bytes → Bytes
unfolding c_str
cannot_read path = codes "error: cannot read '" ++ (c_str path ++ codes "'\n")

unfoldable pub report_all : Bytes → List Diagnostic → Bytes
unfolding report format_one
report_all path [] = []
report_all path (w ∷ warnings) = report path (format_one w) ++ report_all path warnings

-- What parse_file returns, and what it writes to stderr.
abbrev pub Parsed : Type 0
Parsed = Option Ruleset × Bytes

unfoldable pub reported : Bytes → Bool → Result Ruleset × Parser → Parsed
unfolding report format report_all
reported path quiet (unexpected e, p) = (none, if quiet then [] else report path (format e))
reported path quiet (ok rs, p) = (some rs, if quiet then [] else report_all path p.warnings_)

abbrev or_thrown : Bytes → Bool → Option (Result Ruleset × Parser) → Option Parsed
or_thrown path quiet none = none
or_thrown path quiet (some r) = some (reported path quiet r)

abbrev parse_source : Toolchain → Bytes → Bool → Option Bytes → Option Parsed
parse_source t path quiet none = some (none, cannot_read path)
parse_source t path quiet (some src) = or_thrown path quiet (parse t.generated (parser src))

unfoldable pub parse_file : Toolchain → Files → Bytes → Bool → Option Parsed
unfolding reported cannot_read parse
parse_file t files path quiet = parse_source t path quiet (files.read path)

-- `auto rs = parse_file(path); if (!rs) return 1; ...`: `go` is what is written to stdout before 0 is
-- returned.
unfoldable pub with_parsed : (Ruleset → Bytes) → Option Parsed → Option Finished
with_parsed go none = none
with_parsed go (some (none, err)) = some (finish 1 [] err)
with_parsed go (some (some rs, err)) = some (finish 0 (go rs) err)

-- An em dash in UTF-8.
abbrev dash : Bytes
dash = 226 ∷ 128 ∷ 148 ∷ []

unfoldable pub parse_text : Bytes → Ruleset → Bytes
unfolding c_str to_string
parse_text path rs =
    c_str path
    ++ (codes ": ok "
        ++ (dash
            ++ (codes " " ++ (to_string (length rs.header_rules) ++ codes " header-rule(s)\n"))))

unfoldable pub cmd_parse : Toolchain → Files → Bytes → Option Finished
unfolding with_parsed parse_file parse_text
cmd_parse t files path = with_parsed (parse_text path) (parse_file t files path false)

unfoldable pub dump_text : Ruleset → Bytes
unfolding c_str to_hmr_text
dump_text rs = c_str (to_hmr_text rs)

unfoldable pub cmd_dump_ast : Toolchain → Files → Bytes → Option Finished
unfolding with_parsed parse_file dump_text
cmd_dump_ast t files path = with_parsed dump_text (parse_file t files path false)

-- `"  %-24.*s %zu change(s)\n"`
unfoldable pub pass_line : Bytes → ℕ → Bytes
unfolding to_string
pass_line name changes =
    codes "  "
    ++ (name
        ++ (replicate (24 - length name) b' '
            ++ (codes " " ++ (to_string changes ++ codes " change(s)\n"))))

unfoldable pub report_text : OptimizationReport → Bytes
unfolding pass_line to_string
report_text r =
    codes "optimization report ("
    ++ (to_string r.iterations
        ++ (codes " iteration(s)):\n"
            ++ (pass_line (codes "deduplication") r.deduplication
                ++ (pass_line (codes "dead-code-elimination") r.dead_code_elimination
                    ++ (pass_line (codes "pattern-simplification") r.pattern_simplification
                        ++ (pass_line (codes "rule-merging") r.rule_merging
                            ++ (pass_line (codes "decision-tree") r.decision_tree
                                ++ (codes "  decision groups: "
                                    ++ (to_string (length r.plan)
                                        ++ codes "\n--- optimized AST ---\n")))))))))

unfoldable pub optimize_text : Ruleset → Bytes
unfolding optimize report_text dump_text
optimize_text rs = let (rs', r) = optimize 4 rs in report_text r ++ dump_text rs'

unfoldable pub cmd_optimize : Toolchain → Files → Bytes → Option Finished
unfolding with_parsed parse_file optimize_text
cmd_optimize t files path = with_parsed optimize_text (parse_file t files path false)
