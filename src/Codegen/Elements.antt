-- ===== src/Codegen/Elements.antt =====
-- Runs of the lambda of an element rule (src/codegen/cpp_generator.cpp), beside run_element_rules of
-- src/interp/interpreter.cpp.
use olproff_fastsbc_hmr.Base.{
  Bool, true, false, not, ◌&&◌, Option, some, List, [], ◌∷◌, ◌++◌, if◌then◌else◌, ◌≡◌, refl, ap,
  ◌∙◌, inl, inr, arith, Option-cases,
}
use olproff_fastsbc_hmr.Text.{Bytes, codes}
use olproff_fastsbc_hmr.Arena.{HmrStr}
use olproff_fastsbc_hmr.Uri.{HmrUriElement}
use olproff_fastsbc_hmr.Ast.{ElementRule, HeaderRule}
use olproff_fastsbc_hmr.Lowering.{uri_element}
use olproff_fastsbc_hmr.Runtime.Matching.{Search}
use olproff_fastsbc_hmr.Runtime.Builder
use olproff_fastsbc_hmr.Interp.{State, intern, packet_of}
use olproff_fastsbc_hmr.Interp.Eval.{eval_match_guard}
use olproff_fastsbc_hmr.Interp.Rules.{Flow, continue_walk, rejected, call_get_header, is_whole}
use olproff_fastsbc_hmr.Interp.Walk.{run_element_action, run_element_rule, run_element_rules}
use olproff_fastsbc_hmr.Codegen.{
  Expr, temp, Stmt, get_header, return, Item, plain, element, CppEmitter, next_temp,
}
use olproff_fastsbc_hmr.Codegen.Emit.{emit_match_guard}
use olproff_fastsbc_hmr.Codegen.Rules.{
  titled, emit_element_action, emit_element_value, emit_element_rule, emit_elements,
}
use olproff_fastsbc_hmr.Codegen.Exec.{
  Env, assign, value_of, returns, proceed, exec_stmt, exec, exec_items,
}
use olproff_fastsbc_hmr.Codegen.Agreement.{if-both}
use olproff_fastsbc_hmr.Codegen.Grows.{Covers, Grows}
use olproff_fastsbc_hmr.Codegen.Growth.{emit_match_guard-Grows}
use olproff_fastsbc_hmr.Codegen.ElementGrowth.{
  emit_element_value-Grows, emit_element_action-Grows, emit_element_rule-Grows, emit_elements-Grows,
}
use olproff_fastsbc_hmr.Codegen.Values.{
  Below, Agree-refl, Below-mono, assign-Agree, assign_same, resume, exec_then, ValueRuns,
}
use olproff_fastsbc_hmr.Codegen.Guards.{guard_runs}
use olproff_fastsbc_hmr.Codegen.ElementActions.{element_action_runs, RuleRuns, ended}

module _ {R : Type 0} (search_in : Search R) where
  element_view_runs :
      (hv : Expr) (old : HmrStr) (e : HmrUriElement) (env : Env) (st : State R) (g : CppEmitter)
      → value_of env hv ≡ old
      → ValueRuns search_in env st g
          ((if is_whole e then old else Builder.uri_get (packet_of st.msg) st.ctx old e), st)
          (emit_element_value hv e g)
  unfolding exec exec_stmt emit_element_value next_temp
  element_view_runs hv old e env st g h = rw (← h) (
      if-both
        (λ (s : HmrStr) (y : List Stmt × Expr × CppEmitter). ValueRuns search_in env st g (s, st) y)
        (is_whole e) _ _ _ _ (λ c. (env, refl, refl, Agree-refl g.temp_ env, refl))
        (λ c.
          let s = Builder.uri_get (packet_of st.msg) st.ctx (value_of env hv) e in
          (
            assign g.temp_ s env,
            refl,
            assign_same g.temp_ s env,
            assign-Agree g.temp_ g.temp_ s env (omega arith),
            refl,
          )))

  guard_then :
      (b : Bool) (acts : List Stmt) (env : Env) (st : State R) (r : Flow × State R)
      → exec search_in acts env st ≡ returns (ended search_in r) r.1
      → r.1.tables ≡ st.tables
      → (let r' : Flow × State R = if not false && not b then (continue_walk, st) else r in
          (resume search_in acts (proceed b env st) ≡ returns (ended search_in r') r'.1)
          × (r'.1.tables ≡ st.tables))
  guard_then true acts env st r h k = (h, k)
  guard_then false acts env st r h k = (refl, refl)

  element_rule_runs :
      (hr : HeaderRule) (nm : Expr) (er : ElementRule) (e : HmrUriElement) (env : Env)
      (st : State R) (g : CppEmitter)
      → Below g.temp_ nm
      → value_of env nm ≡ intern hr.header_name
      → RuleRuns search_in env st
          (run_element_rule search_in hr er e false st)
          (emit_element_rule hr nm er e g)
  unfolding exec exec_stmt run_element_rule emit_element_rule next_temp
  element_rule_runs hr nm er e env st g b h c =
      let old = call_get_header (intern hr.header_name) st in
      let (t, g1) = next_temp g in
      let env1 = assign t old env in
      let (vs, ev, g2) = emit_element_value (temp t) e g1 in
      let (gs, g3) = emit_match_guard er.comparison er.match_val_type er.match_value ev g2 in
      let (acts, g4) = emit_element_action hr er e nm (temp t) ev g3 in
      let s = if is_whole e then old else Builder.uri_get (packet_of st.msg) st.ctx old e in
      let (passes, st') =
        eval_match_guard search_in er.comparison er.match_val_type er.match_value s st in
      let value_grows : Grows g1 g2 = emit_element_value-Grows (temp t) e g1 in
      let guard_grows : Grows g2 g3 =
        emit_match_guard-Grows er.comparison er.match_val_type er.match_value ev g2 in
      let action_grows : Grows g3 g4 = emit_element_action-Grows hr er e nm (temp t) ev g3 in
      let c3 = action_grows.1 st.tables c in
      let c2 = guard_grows.1 st.tables c3 in
      let (env2, run, value, agree, same) =
        element_view_runs (temp t) old e env1 st g1 (assign_same t old env) c2 in
      let (guard, same') =
        guard_runs search_in er.comparison er.match_val_type er.match_value ev s env2 st g2 value
          c3 in
      let up : (x : Expr) → Below g.temp_ x → Below g1.temp_ x =
        λ x k. Below-mono g.temp_ g1.temp_ x (omega arith) k in
      let below : (x : Expr) → Below g1.temp_ x → Below g3.temp_ x =
        λ x k. Below-mono g1.temp_ g3.temp_ x (omega (arith, value_grows.0, guard_grows.0)) k in
      let held : value_of env2 nm ≡ intern hr.header_name =
        agree nm (up nm b) ∙ assign-Agree g.temp_ t old env (omega arith) nm b ∙ h in
      let fetched : value_of env2 (temp t) ≡ old =
        agree (temp t) (omega arith) ∙ assign_same t old env in
      let (acted, same'') =
        element_action_runs search_in hr er e nm (temp t) ev old s env2 st' g3 (below nm (up nm b))
          (below (temp t) (omega arith)) held fetched value (rw same' c) in
      let (ends, kept) =
        guard_then passes acts env2 st' (run_element_action hr er e old s false st') acted same'' in
      let first : exec search_in (get_header t nm ∷ (vs ++ (gs ++ acts))) env st
          ≡ exec search_in (vs ++ (gs ++ acts)) env1 st =
        ap (λ x. exec search_in (vs ++ (gs ++ acts)) (assign t (call_get_header x st) env) st) h in
      (
        first
            ∙ exec_then search_in vs (gs ++ acts) env1 st _ run
            ∙ exec_then search_in gs acts env2 st _ guard
            ∙ ends,
        kept ∙ same',
      )

  -- Whether the rules reject, and the state behind them.
  abbrev pub result : Flow × State R → Option (Bool × State R)
  result r = some (ended search_in r, r.1)

  -- One element rule, and what follows it.
  element_then :
      (text : Bytes) (ss : List Stmt) (items : List Item) (k : State R → Flow × State R) (env : Env)
      (st : State R) (r : Flow × State R)
      → exec search_in ss env st ≡ returns (ended search_in r) r.1
      → r.1.tables ≡ st.tables
      → (exec_items search_in items env r.1 ≡ result (k r.1)) × ((k r.1).1.tables ≡ r.1.tables)
      → (let r' : Flow × State R = elim r.0 [
        | continue_walk ↦ k r.1
        | rejected ↦ (rejected, r.1)
      ] in
          (exec_items search_in (element text ss ∷ items) env st ≡ result r')
          × (r'.1.tables ≡ st.tables))
  unfolding exec_items
  element_then text ss items k env st (continue_walk, st') run same (next, same') =
      (rw (run, exec_items) next, same' ∙ same)
  element_then text ss items k env st (rejected, st') run same (next, same') =
      (rw (run, exec_items) refl, same)

  pub elements_run :
      (hr : HeaderRule) (nm : Expr) (ers : List ElementRule) (env : Env) (st : State R)
      (g : CppEmitter)
      → Below g.temp_ nm
      → value_of env nm ≡ intern hr.header_name
      → Covers st.tables (emit_elements hr nm ers g).1
      → (exec_items search_in ((emit_elements hr nm ers g).0 ++ plain (return false) ∷ []) env st
          ≡ result (run_element_rules search_in hr ers false st))
        × ((run_element_rules search_in hr ers false st).1.tables ≡ st.tables)
  unfolding exec_items exec_stmt run_element_rules emit_elements
  elements_run hr nm [] env st g b h c = (refl, refl)
  elements_run hr nm (er ∷ ers) env st g b h c = elim (Option-cases (uri_element er.type)) [
    | inl unsupported ↦
        rw (unsupported, run_element_rules, emit_elements)
          (elements_run hr nm ers env st g b h (rw (unsupported, emit_elements) at c))
    | inr (e, supported) ↦
        let c' = rw (supported, emit_elements) at c in
        let (ss, g') = emit_element_rule hr nm er e g in
        let r = run_element_rule search_in hr er e false st in
        let grows : Grows g g' = emit_element_rule-Grows hr nm er e g in
        let (run, same) =
          element_rule_runs hr nm er e env st g b h
            ((emit_elements-Grows hr nm ers g').1 st.tables c') in
        rw (supported, run_element_rules, emit_elements)
          (element_then (titled (codes "element-rule") er.name) ss
            ((emit_elements hr nm ers g').0 ++ plain (return false) ∷ [])
            (run_element_rules search_in hr ers false) env st r run same
            (elements_run hr nm ers env r.1 g' (Below-mono g.temp_ g'.temp_ nm grows.0 b) h
              (rw same c')))
  ]
