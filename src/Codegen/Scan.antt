-- ===== src/Codegen/Scan.antt =====
-- The rules in step: emit_header_rule of src/codegen/cpp_generator.cpp beside the scan of
-- src/interp/interpreter.cpp.
use olproff_fastsbc_hmr.Base.{
  ℕ, ◌+◌, Bool, true, false, not, ◌||◌, List, [], ◌∷◌, ◌==◌, if◌then◌else◌, length, ◌≡◌, refl, ap,
  inl, inr, suc-==_false, Option-cases, Bool-cases,
}
use olproff_fastsbc_hmr.Arena.{HmrStr, null_str}
use olproff_fastsbc_hmr.Uri.{HmrUriElement}
use olproff_fastsbc_hmr.Value.{empty}
use olproff_fastsbc_hmr.Ast.{MatchValType, ElementRule, HeaderRule, Ruleset}
use olproff_fastsbc_hmr.Lowering.{uri_element}
use olproff_fastsbc_hmr.Runtime.Matching.{Search}
use olproff_fastsbc_hmr.Interp.{State, intern}
use olproff_fastsbc_hmr.Interp.Eval.{eval_match_guard}
use olproff_fastsbc_hmr.Interp.Rules.{call_get_header, run_header_action}
use olproff_fastsbc_hmr.Interp.Walk.{
  then_elements, is_store, run_element_rule, run_element_rules, run_matched_rule, run_header_rule,
  walk, scan_tables,
}
use olproff_fastsbc_hmr.Interp.Frozen.{freeze}
use olproff_fastsbc_hmr.Codegen.{Expr, temp, Stmt, CppEmitter, next_temp}
use olproff_fastsbc_hmr.Codegen.Emit.{emit_match_guard}
use olproff_fastsbc_hmr.Codegen.Rules.{
  emit_element_value, emit_element_rule, emit_elements, emit_element_rules, emit_method_guard,
  emit_header_value, emit_header_guard, emit_rest, emit_head, emit_header_rule, emit_rules,
  new_emitter, emit,
}
use olproff_fastsbc_hmr.Codegen.Agreement.{open_tables, if_either, InStep, guard-InStep}
use olproff_fastsbc_hmr.Codegen.ActionScan.{
  action-InStep, element_action-InStep, element_value-InStep, FlowInStep,
}

module _ {R : Type 0} (search_in : Search R) where
  element_rule-InStep :
      (hr : HeaderRule) (nm : Expr) (er : ElementRule) (e : HmrUriElement) (st : State R)
      (g : CppEmitter)
      → InStep st g
      → FlowInStep (run_element_rule search_in hr er e true st) (emit_element_rule hr nm er e g)
  unfolding run_element_rule emit_element_rule emit_element_value next_temp
  element_rule-InStep hr nm er e st g h = element_action-InStep hr er e _ _ nm _ _ _ _ (
      guard-InStep search_in er.comparison er.match_val_type er.match_value _ _ st _
        (element_value-InStep _ e st _ h))

  elements-InStep :
      (hr : HeaderRule) (nm : Expr) (ers : List ElementRule) (st : State R) (g : CppEmitter)
      → InStep st g
      → FlowInStep (run_element_rules search_in hr ers true st) (emit_elements hr nm ers g)
  unfolding run_element_rules emit_elements
  elements-InStep hr nm [] st g h = (refl, h)
  elements-InStep hr nm (er ∷ ers) st g h = elim (Option-cases (uri_element er.type)) [
    | inl unsupported ↦
        rw (unsupported, run_element_rules, emit_elements) (elements-InStep hr nm ers st g h)
    | inr (e, supported) ↦
        let (goes_on, h') = element_rule-InStep hr nm er e st g h in
        rw (supported, run_element_rules, emit_elements)
          (rw goes_on (elements-InStep hr nm ers _ _ h'))
  ]

  -- The element rules behind the action.
  rest-InStep :
      (hr : HeaderRule) (r : Bool × State R) (g : CppEmitter)
      → InStep r.1 g
      → InStep (then_elements search_in hr true r).1 (emit_rest hr r.0 g).1
  unfolding emit_rest emit_element_rules next_temp run_element_rules
  rest-InStep hr (true, st) g h = h
  rest-InStep hr (false, st) g h =
      elim hr.element_rules
        as (λ ers.
          let hr' = record hr { element_rules = ers } in
          InStep (then_elements search_in hr' true (false, st)).1 (emit_rest hr' false g).1) [
            | [] ↦ h
            | er ∷ ers ↦
                rw (suc-==_false (length ers))
                  (elements-InStep (record hr { element_rules = er ∷ ers }) (temp g.temp_)
                    (er ∷ ers) st _ h).1
          ]

  header_guard-InStep :
      (hr : HeaderRule) (s : HmrStr) (st : State R) (g : CppEmitter)
      → InStep st g
      → (let (vs, hv, g') = emit_header_value hr g in
          InStep
            (if empty hr.match_value
              then (true, st)
              else eval_match_guard search_in hr.comparison MatchValType.any hr.match_value s st).1
            (emit_header_guard hr hv g').1)
  unfolding emit_header_value emit_header_guard emit_match_guard next_temp
  header_guard-InStep hr s st g h = elim (Bool-cases (empty hr.match_value)) [
    | inl e ↦
        rw (e, emit_header_value, emit_header_guard, emit_match_guard)
          (elim (Bool-cases (is_store hr.action)) [
            | inl k ↦ rw k (rw (e, emit_match_guard) h)
            | inr k ↦ rw k h
          ])
    | inr used ↦
        rw (used, emit_header_value)
          (guard-InStep search_in hr.comparison MatchValType.any hr.match_value s _ st _ h)
  ]

  matched-InStep :
      (hr : HeaderRule) (idx : ℕ) (st : State R) (g : CppEmitter)
      → InStep st g
      → InStep (run_header_rule search_in hr idx true st).1 (emit_header_rule hr idx g).1
  unfolding run_header_rule run_matched_rule emit_header_rule emit_head emit_method_guard next_temp
  matched-InStep hr idx st g h =
      let need_hv = not (empty hr.match_value) || is_store hr.action in
      let hv = if need_hv then call_get_header (intern hr.header_name) st else null_str in
      let (passes, st') : Bool × State R =
        if empty hr.match_value
        then (true, st)
        else eval_match_guard search_in hr.comparison MatchValType.any hr.match_value hv st in
      let g1 = (emit_method_guard hr.methods g).1 in
      let (vs, e, g2) = emit_header_value hr g1 in
      let g3 = (emit_header_guard hr e g2).1 in
      let h1 =
        if_either (λ (x : List Stmt × CppEmitter). InStep st x.1) (length hr.methods == 0) _ _ h
          h in
      let h3 = action-InStep hr idx hv need_hv e st' g3 (header_guard-InStep hr hv st g1 h1) in
      rw (← h3.0) (rest-InStep hr (run_header_action hr idx hv need_hv st') _ h3.1)

  rules-InStep :
      (hrs : List HeaderRule) (i : ℕ) (st : State R) (g : CppEmitter)
      → InStep st g
      → InStep (walk search_in hrs i true st).1 (emit_rules hrs i g).1
  unfolding walk emit_rules
  rules-InStep [] i st g h = h
  rules-InStep (hr ∷ hrs) i st g h = rules-InStep hrs (i + 1) _ _ (matched-InStep hr i st g h)

-- For every ruleset and every regex search, the tables that the interpreter's scan fills are those that
-- the generator has filled when it has emitted every rule, with the same patterns, flags and slots in
-- the same order, closed to further entries.
pub scan_tables-emit :
    {R : Type 0} (search_in : Search R) (rs : Ruleset)
    → scan_tables search_in rs ≡ freeze (open_tables (emit rs).1)
unfolding scan_tables emit
scan_tables-emit search_in rs =
    ap freeze (rules-InStep search_in rs.header_rules 0 _ new_emitter refl)
