-- ===== src/Optimizer/Plan.antt =====
-- DecisionTreeAnalysisPass of src/optimizer/optimizer.cpp: the rules grouped by the header they act on.
use olproff_fastsbc_hmr.Base.{ℕ, ◌+◌, List, [], ◌∷◌, ◌++◌, if◌then◌else◌}
use olproff_fastsbc_hmr.Text.{Bytes, same_text}
use olproff_fastsbc_hmr.Ast.{HeaderRule}
use olproff_fastsbc_hmr.Ast.Factory.{lower}

pub record DecisionGroup : Type 0 where
  pub header_name : Bytes
  pub rule_idx : List ℕ

-- Rule `i` joins the first group of its key, or starts one at the end.
unfoldable pub add_to_group : Bytes → ℕ → List DecisionGroup → List DecisionGroup
unfolding same_text
add_to_group key i [] = record { header_name = key; rule_idx = i ∷ [] } ∷ []
add_to_group key i (g ∷ gs) =
    if same_text g.header_name key
    then record g { rule_idx = g.rule_idx ++ i ∷ [] } ∷ gs
    else g ∷ add_to_group key i gs

unfoldable pub plan_loop : List DecisionGroup → ℕ → List HeaderRule → List DecisionGroup
unfolding add_to_group lower
plan_loop groups i [] = groups
plan_loop groups i (hr ∷ hrs) = plan_loop (add_to_group (lower hr.header_name) i groups) (i + 1) hrs

unfoldable pub analyse : List HeaderRule → List DecisionGroup
unfolding plan_loop
analyse hrs = plan_loop [] 0 hrs
