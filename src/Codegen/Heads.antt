-- ===== src/Codegen/Heads.antt =====
-- Runs of the parts of a header rule's lambda (src/codegen/cpp_generator.cpp), beside run_header_rule of
-- src/interp/interpreter.cpp.
use olproff_fastsbc_hmr.Base.{
  Bool, true, false, not, ◌||◌, Option, none, some, List, [], ◌∷◌, ◌++◌, ◌==◌, if◌then◌else◌,
  length, map, ◌≡◌, refl, ap, ◌∙◌, inl, inr, arith, Bool-cases, suc-==_false,
}
use olproff_fastsbc_hmr.Text.{Bytes}
use olproff_fastsbc_hmr.Arena.{HmrStr, null_str}
use olproff_fastsbc_hmr.Value.{empty}
use olproff_fastsbc_hmr.Runtime.Message
use olproff_fastsbc_hmr.Ast.{MatchValType, MsgType, HeaderRule}
use olproff_fastsbc_hmr.Runtime.Matching.{Search}
use olproff_fastsbc_hmr.Interp.{State, intern}
use olproff_fastsbc_hmr.Interp.Eval.{eval_match_guard}
use olproff_fastsbc_hmr.Interp.Rules.{Flow, continue_walk, call_get_header}
use olproff_fastsbc_hmr.Interp.Walk
use olproff_fastsbc_hmr.Interp.Walk.{
  any_method, is_store, is_rejected, then_elements, run_element_rules, run_matched_rule,
  run_header_rule, walk, scan_tables, apply,
}
use olproff_fastsbc_hmr.Codegen.{
  Expr, temp, Stmt, type_guard, method_guard, Item, plain, CppEmitter, next_temp,
}
use olproff_fastsbc_hmr.Codegen.Rules.{
  emit_element_rules, emit_type_guard, emit_method_guard, emit_header_value, emit_header_guard,
  emit_rest,
}
use olproff_fastsbc_hmr.Codegen.Exec.{
  Env, assign, Outcome, goes, returns, proceed, exec_stmt, exec, exec_items,
}
use olproff_fastsbc_hmr.Codegen.Grows.{Covers}
use olproff_fastsbc_hmr.Codegen.ElementGrowth.{emit_rest-Grows}
use olproff_fastsbc_hmr.Codegen.Values.{assign_same, exec_then, exec_single}
use olproff_fastsbc_hmr.Codegen.Guards.{guard_runs}
use olproff_fastsbc_hmr.Codegen.Actions.{HeadRuns, Holds}
use olproff_fastsbc_hmr.Codegen.Elements.{result, elements_run}

module _ {R : Type 0} (search_in : Search R) where
  -- What follows the first statements of a header rule's lambda.
  abbrev after : List Item → Outcome R → Option (Bool × State R)
  after items (goes env st) = exec_items search_in items env st
  after items (returns b st) = some (b, st)

  pub items_after :
      (ss : List Stmt) (items : List Item) (env : Env) (st : State R)
      → exec_items search_in (map plain ss ++ items) env st ≡ after items (exec search_in ss env st)
  unfolding exec_items exec
  items_after [] items env st = refl
  items_after (s ∷ ss) items env st =
      elim (exec_stmt search_in s env st)
        as (λ o.
          (elim o [
            | goes e s ↦ exec_items search_in (map plain ss ++ items) e s
            | returns b s ↦ some (b, s)
          ])
          ≡ after items (elim o [ goes e s ↦ exec search_in ss e s | returns b s ↦ returns b s ])) [
            | goes e s ↦ items_after ss items e s
            | returns b s ↦ refl
          ]

  -- The statements, and the items behind them, have the result `r`; the tables stay.
  abbrev Ends : List Item → List Stmt → Env → State R → Flow × State R → Type 0
  Ends items ss env st r =
      (after items (exec search_in ss env st) ≡ result search_in r) × (r.1.tables ≡ st.tables)

  pub guarded :
      (b : Bool) (gs ss : List Stmt) (items : List Item) (env env' : Env) (st st' : State R)
      (r : Flow × State R)
      → exec search_in gs env st ≡ proceed b env' st'
      → st'.tables ≡ st.tables
      → Ends items ss env' st' r
      → Ends items (gs ++ ss) env st (if not b then (continue_walk, st') else r)
  guarded true gs ss items env env' st st' r run same (ends, kept) =
      (ap (after items) (exec_then search_in gs ss env st _ run) ∙ ends, kept ∙ same)
  guarded false gs ss items env env' st st' r run same (ends, kept) =
      (ap (after items) (exec_then search_in gs ss env st _ run), same)

  rest_runs :
      (hr : HeaderRule) (env : Env) (st : State R) (g : CppEmitter)
      → Covers st.tables (emit_rest hr false g).1
      → (exec_items search_in (emit_rest hr false g).0 env st
          ≡ result search_in (then_elements search_in hr false (false, st)))
        × ((then_elements search_in hr false (false, st)).1.tables ≡ st.tables)
  unfolding exec_items exec_stmt emit_rest emit_element_rules run_element_rules next_temp
  rest_runs hr env st g c =
      (elim hr.element_rules
          as (λ ers.
            let hr' = record hr { element_rules = ers } in
            Covers st.tables (emit_rest hr' false g).1
            → (exec_items search_in (emit_rest hr' false g).0 env st
                ≡ result search_in (then_elements search_in hr' false (false, st)))
              × ((then_elements search_in hr' false (false, st)).1.tables ≡ st.tables)) [
                | [] ↦ λ c. (refl, refl)
                | er ∷ ers ↦
                    let hr' = record hr { element_rules = er ∷ ers } in
                    let name = intern hr.header_name in
                    rw (suc-==_false (length ers)) (λ c.
                      elements_run search_in hr' (temp g.temp_) (er ∷ ers) (assign g.temp_ name env)
                        st (next_temp g).1 (omega arith) (assign_same g.temp_ name env) c)
              ])
        c

  pub action_then :
      (hr : HeaderRule) (r : Bool × State R) (h : Bool × List Stmt × CppEmitter) (env : Env)
      (st : State R) (g : CppEmitter)
      → HeadRuns search_in env st g r h
      → Covers st.tables (emit_rest hr h.0 h.2).1
      → Ends (emit_rest hr h.0 h.2).0 h.1 env st (then_elements search_in hr false r)
  action_then hr (true, st') (b, ss, g') env st g (e, runs) c =
      let (run, same) = runs ((emit_rest-Grows hr b g').1 st.tables c) in (ap (after _) run, same)
  action_then hr (false, st') (b, ss, g') env st g (e, runs) c =
      let (env', run, agree, same) = runs ((emit_rest-Grows hr b g').1 st.tables c) in
      let (rest, kept) = rest_runs hr env' st' g' (rw same (rw e at c)) in
      (ap (after (emit_rest hr b g').0) run ∙ rw e rest, kept ∙ same)

  pub type_guard_runs :
      (mt : MsgType) (env : Env) (st : State R)
      → exec search_in (emit_type_guard mt) env st ≡ proceed (Walk.type_guard mt st.msg) env st
  unfolding exec exec_stmt emit_type_guard Walk.type_guard
  type_guard_runs MsgType.request env st = exec_single search_in (type_guard true) env st
  type_guard_runs MsgType.reply env st = exec_single search_in (type_guard false) env st
  type_guard_runs _ env st = refl

  pub method_guard_runs :
      (methods : List Bytes) (env : Env) (st : State R) (g : CppEmitter)
      → (env' : Env) × (exec search_in (emit_method_guard methods g).0 env st
          ≡ proceed (Walk.method_guard methods st) env' st)
  unfolding exec exec_stmt emit_method_guard Walk.method_guard next_temp
  method_guard_runs methods env st g = elim (Bool-cases (length methods == 0)) [
    | inl e ↦ rw e (env, refl)
    | inr n ↦
        let method = Message.get_method st.msg in
        let env' = assign g.temp_ method env in
        rw n (
          env',
          exec_single search_in (method_guard g.temp_ methods) env' st
              ∙ rw (assign_same g.temp_ method env) refl,
        )
  ]

  abbrev pub wants_header : HeaderRule → Bool
  wants_header hr = not (empty hr.match_value) || is_store hr.action

  abbrev pub header_value : HeaderRule → State R → HmrStr
  header_value hr st =
      if wants_header hr then call_get_header (intern hr.header_name) st else null_str

  pub header_value_runs :
      (hr : HeaderRule) (env : Env) (st : State R) (g : CppEmitter)
      → (env' : Env) × (exec search_in (emit_header_value hr g).0 env st ≡ goes env' st)
        × Holds search_in env' (header_value hr st) (wants_header hr) (emit_header_value hr g).1
  unfolding exec exec_stmt emit_header_value next_temp
  header_value_runs hr env st g = elim (Bool-cases (wants_header hr)) [
    | inl e ↦
        let hv = call_get_header (intern hr.header_name) st in
        rw e (assign g.temp_ hv env, refl, (refl, assign_same g.temp_ hv env))
    | inr n ↦ rw n (env, refl, refl)
  ]

  abbrev pub header_guard : HeaderRule → State R → Bool × State R
  header_guard hr st =
      if empty hr.match_value
      then (true, st)
      else eval_match_guard search_in hr.comparison MatchValType.any hr.match_value
          (header_value hr st) st

  header_guard_lem :
      (hr : HeaderRule) (s : HmrStr) (st : State R)
      → (if empty hr.match_value
          then (true, st)
          else eval_match_guard search_in hr.comparison MatchValType.any hr.match_value s st)
        ≡ eval_match_guard search_in hr.comparison MatchValType.any hr.match_value s st
  unfolding eval_match_guard
  header_guard_lem hr s st = elim (Bool-cases (empty hr.match_value)) [
    | inl e ↦ rw (e, eval_match_guard) refl
    | inr n ↦ rw n refl
  ]

  pub header_guard_runs :
      (hr : HeaderRule) (hv : Option Expr) (env : Env) (st : State R) (g : CppEmitter)
      → Holds search_in env (header_value hr st) (wants_header hr) hv
      → Covers st.tables (emit_header_guard hr hv g).1
      → (exec search_in (emit_header_guard hr hv g).0 env st
          ≡ proceed (header_guard hr st).0 env (header_guard hr st).1)
        × ((header_guard hr st).1.tables ≡ st.tables)
  unfolding exec emit_header_guard
  header_guard_runs hr none env st g h c = elim (Bool-cases (empty hr.match_value)) [
    | inl e ↦ rw e (refl, refl)
    | inr n ↦ absurd (ground (arith, rw n at h))
  ]
  header_guard_runs hr (some hv) env st g h c = rw (header_guard_lem hr (header_value hr st) st) (
      guard_runs search_in hr.comparison MatchValType.any hr.match_value hv (header_value hr st) env
        st g h.1 c)
