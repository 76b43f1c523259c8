-- ===== src/Optimizer.antt =====
-- src/optimizer/optimizer.cpp and include/hmr/optimizer/: the passes over a ruleset. A pass gives back
-- the rules and its count of changes.
pub mod Rounds
pub mod Groups
pub mod Dedup
pub mod Unchanged
pub mod Signature
pub mod Passes
pub mod Plan
use olproff_fastsbc_hmr.Base.{
  ℕ, zero, suc, ◌+◌, Bool, true, false, List, ◌==◌, if◌then◌else◌, length,
}
use olproff_fastsbc_hmr.Text.{Bytes}
use olproff_fastsbc_hmr.Ast.{HeaderRule, Ruleset}
use Passes.{deduplicate, eliminate_dead_code, simplify_patterns, merge_rules}
use Plan.{DecisionGroup, analyse}

pub record OptimizationReport : Type 0 where
  pub deduplication : ℕ
  pub dead_code_elimination : ℕ
  pub pattern_simplification : ℕ
  pub rule_merging : ℕ
  pub decision_tree : ℕ
  pub plan : List DecisionGroup
  pub iterations : ℕ

-- The variables of the loop: the rules, the four totals, and `iter`.
pub record Progress : Type 0 where
  pub rules : List HeaderRule
  pub dedup : ℕ
  pub dce : ℕ
  pub pat : ℕ
  pub merge : ℕ
  pub iter : ℕ

abbrev pub total : Progress → ℕ
total p = p.dedup + p.dce + p.pat + p.merge

-- The four passes of one iteration.
unfoldable pub round : Progress → Progress
unfolding deduplicate eliminate_dead_code simplify_patterns merge_rules
round p =
    let (r1, n1) = deduplicate p.rules in
    let (r2, n2) = eliminate_dead_code r1 in
    let (r3, n3) = simplify_patterns r2 in
    let (r4, n4) = merge_rules r3 in
    record {
      rules = r4;
      dedup = p.dedup + n1;
      dce = p.dce + n2;
      pat = p.pat + n3;
      merge = p.merge + n4;
      iter = p.iter + 1;
    }

-- The loop, with the iterations that max_iterations still allows.
unfoldable pub fixpoint : ℕ → Progress → Progress
unfolding round
fixpoint zero p = p
fixpoint (suc left) p =
    let next = round p in elim (total next == total p) [ true ↦ next | false ↦ fixpoint left next ]

abbrev pub start : List HeaderRule → Progress
start hrs = record { rules = hrs; dedup = 0; dce = 0; pat = 0; merge = 0; iter = 0 }

unfoldable pub optimize : ℕ → Ruleset → Ruleset × OptimizationReport
unfolding fixpoint analyse
optimize max_iterations rs =
    let p = fixpoint max_iterations (start rs.header_rules) in
    let plan = analyse p.rules in
    (
      record rs { header_rules = p.rules },
      record {
        deduplication = p.dedup;
        dead_code_elimination = p.dce;
        pattern_simplification = p.pat;
        rule_merging = p.merge;
        decision_tree = length plan;
        plan = plan;
        iterations = p.iter;
      },
    )
