-- ===== src/Codegen/Guards.antt =====
-- Runs of the statements that emit_match_guard appends (src/codegen/cpp_generator.cpp), beside
-- eval_match_guard of src/interp/interpreter.cpp.
use olproff_fastsbc_hmr.Base.{Bool, not, ◌&&◌, ◌||◌, List, ◌≡◌, refl, inl, inr, Bool-cases}
use olproff_fastsbc_hmr.Text.{Bytes}
use olproff_fastsbc_hmr.Arena.{HmrStr}
use olproff_fastsbc_hmr.Value.{Value, empty, is_pure_literal, is_regex_literal}
use olproff_fastsbc_hmr.Ast.{ComparisonType, MatchValType}
use olproff_fastsbc_hmr.Lowering.{is_pattern, is_case_insensitive}
use olproff_fastsbc_hmr.Runtime.{regex}
use olproff_fastsbc_hmr.Runtime.Matching.{Search}
use olproff_fastsbc_hmr.Interp.{State}
use olproff_fastsbc_hmr.Interp.Eval.{run_guard, eval_match_guard, guard_pattern, literal_match_type}
use olproff_fastsbc_hmr.Codegen.{Expr, Stmt, CppEmitter, add_regex, match_guard}
use olproff_fastsbc_hmr.Codegen.Emit.{emit_match_guard, pattern_of, select_match_type}
use olproff_fastsbc_hmr.Codegen.Exec.{Env, value_of, proceed, exec_stmt, exec}
use olproff_fastsbc_hmr.Codegen.Agreement.{if-both}
use olproff_fastsbc_hmr.Codegen.Grows.{Covers, add_regex-Covers}
use olproff_fastsbc_hmr.Codegen.Values.{exec_single}

same_match_type :
    (cmp : ComparisonType) (mvt : MatchValType) (pattern : Bytes)
    → select_match_type cmp mvt pattern ≡ literal_match_type cmp mvt pattern
unfolding select_match_type literal_match_type
same_match_type cmp MatchValType.ip pattern = refl
same_match_type cmp MatchValType.fqdn pattern = refl
same_match_type cmp MatchValType.any pattern = refl

module _ {R : Type 0} (search_in : Search R) where
  -- The statements go on where the guard passes, and else return false.
  abbrev pub GuardRuns : Env → State R → Bool × State R → List Stmt × CppEmitter → Type 0
  GuardRuns env st (b, st') (ss, g') =
      Covers st.tables g'
      → (exec search_in ss env st ≡ proceed b env st') × (st'.tables ≡ st.tables)

  guard_at :
      (cmp : ComparisonType) (mvt : MatchValType) (mv : Value) (e : Expr) (env : Env) (st : State R)
      (g : CppEmitter)
      → GuardRuns env st
          (eval_match_guard search_in cmp mvt mv (value_of env e) st)
          (emit_match_guard cmp mvt mv e g)
  unfolding exec exec_stmt eval_match_guard emit_match_guard run_guard guard_pattern pattern_of
  guard_at cmp mvt mv e env st g =
      if-both (GuardRuns env st)
        (empty mv || (not (is_regex_literal mv) && not (is_pure_literal mv))) _ _ _ _
        (λ c. (refl, refl))
        (elim (Bool-cases (is_pattern cmp)) [
          | inl p ↦ rw p (λ c.
              rw (add_regex-Covers (guard_pattern mv) (is_case_insensitive cmp) st.tables g c) (
                exec_single search_in
                    (match_guard regex e (pattern_of mv)
                      (add_regex (pattern_of mv) (is_case_insensitive cmp) g).0 mv.negated)
                    env st,
                refl,
              ))
          | inr n ↦ rw n (λ c. rw (← same_match_type cmp mvt (guard_pattern mv)) (
            exec_single search_in
                (match_guard (select_match_type cmp mvt (guard_pattern mv)) e (pattern_of mv) 0
                  mv.negated)
                env st,
            refl,
          ))
        ])

  pub guard_runs :
      (cmp : ComparisonType) (mvt : MatchValType) (mv : Value) (e : Expr) (s : HmrStr) (env : Env)
      (st : State R) (g : CppEmitter)
      → value_of env e ≡ s
      → GuardRuns env st
          (eval_match_guard search_in cmp mvt mv s st)
          (emit_match_guard cmp mvt mv e g)
  guard_runs cmp mvt mv e s env st g h = rw (← h) (guard_at cmp mvt mv e env st g)
