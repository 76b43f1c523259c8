-- ===== src/Codegen/ActionScan.antt =====
-- The actions in step: those of src/codegen/cpp_generator.cpp beside the scan of
-- src/interp/interpreter.cpp.
use olproff_fastsbc_hmr.Base.{
  ℕ, zero, suc, ◌+◌, Bool, true, not, ◌&&◌, Option, none, some, List, ◌++◌, ◌==◌, if◌then◌else◌,
  length, ◌≡◌, refl,
}
use olproff_fastsbc_hmr.Text.{Bytes, codes}
use olproff_fastsbc_hmr.Arena.{HmrStr}
use olproff_fastsbc_hmr.Uri.{HmrUriElement}
use olproff_fastsbc_hmr.Value.{Value, empty}
use olproff_fastsbc_hmr.Ast.{HeaderAction, ElementAction, ElementRule, HeaderRule}
use olproff_fastsbc_hmr.Lowering.{is_pattern, count_capturing_groups, to_string}
use olproff_fastsbc_hmr.Runtime.Matching.{get_capture}
use olproff_fastsbc_hmr.Interp.{State, intern}
use olproff_fastsbc_hmr.Interp.Eval.{guard_pattern}
use olproff_fastsbc_hmr.Interp.Rules.{
  Flow, continue_walk, call_set_header, call_add_header, call_delete_header, call_get_header,
  call_store, store_groups, message_value, run_store, run_replace, run_add, run_log, run_reject,
  run_header_action, is_whole,
}
use olproff_fastsbc_hmr.Interp.Walk.{
  set_element, run_element_replace, run_element_delete, run_element_action,
}
use olproff_fastsbc_hmr.Codegen.{Expr, Stmt, CppEmitter, slot_for, next_temp}
use olproff_fastsbc_hmr.Codegen.Emit.{pattern_of}
use olproff_fastsbc_hmr.Codegen.Rules.{
  emit_message, emit_groups, emit_plain_store, emit_store, emit_replace, emit_add, emit_log,
  emit_reject, emit_header_action, emit_set_element, emit_element_replace, emit_element_delete,
  emit_element_action, emit_element_value,
}
use olproff_fastsbc_hmr.Codegen.Agreement.{
  if-both, if_either, InStep, ValueInStep, slot-InStep, value-InStep,
}

module _ {R : Type 0} where
  message-InStep :
      (v : Value) (name : Bytes) (st : State R) (g : CppEmitter)
      → InStep st g
      → ValueInStep (message_value v name st) (emit_message v name g)
  unfolding message_value emit_message
  message-InStep v name st g h = if-both ValueInStep (empty v) _ _ _ _ h (value-InStep v st g h)

  store-InStep :
      (key : Bytes) (s : HmrStr) (st : State R) (g : CppEmitter)
      → InStep st g
      → InStep (call_store key s st) (slot_for key g).1
  unfolding call_store
  store-InStep key s st g h = slot-InStep key st g h

  groups-InStep :
      (left group : ℕ) (rule : Bytes) (st : State R) (g : CppEmitter)
      → InStep st g
      → InStep (store_groups left group rule st) (emit_groups left group rule g).1
  unfolding store_groups emit_groups next_temp
  groups-InStep zero group rule st g h = h
  groups-InStep (suc left) group rule st g h =
      groups-InStep left (group + 1) rule _ _ (store-InStep _ (get_capture st.ctx group) st _ h)

  plain_store-InStep :
      (rule name : Bytes) (s : HmrStr) (hv : Option Expr) (st : State R) (g : CppEmitter)
      → InStep st g
      → InStep (call_store rule s st) (emit_plain_store rule name hv g).1
  unfolding emit_plain_store next_temp
  plain_store-InStep rule name s none st g h = store-InStep rule s st _ h
  plain_store-InStep rule name s (some hv) st g h = store-InStep rule s st g h

  -- A state beside the emitter behind some statements.
  abbrev pub ActInStep : State R → List Stmt × CppEmitter → Type 0
  ActInStep st (ss, g) = InStep st g

  run_store-InStep :
      (hr : HeaderRule) (idx : ℕ) (s : HmrStr) (have_hv : Bool) (hv : Option Expr) (st : State R)
      (g : CppEmitter)
      → InStep st g
      → ActInStep (run_store hr idx s have_hv st) (emit_store hr idx hv g)
  unfolding run_store emit_store guard_pattern pattern_of
  run_store-InStep hr idx s have_hv hv st g h =
      let rule = if length hr.name == 0 then codes "rule" ++ to_string idx else hr.name in
      let value = if have_hv then s else call_get_header (intern hr.header_name) st in
      let groups = count_capturing_groups (guard_pattern hr.match_value) + 1 in
      if-both ActInStep (is_pattern hr.comparison) _ _ _ _ (groups-InStep groups 0 rule st g h)
        (plain_store-InStep rule hr.header_name value hv st g h)

  replace-InStep :
      (hr : HeaderRule) (st : State R) (g : CppEmitter)
      → InStep st g
      → ActInStep (run_replace hr st) (emit_replace hr g)
  unfolding run_replace emit_replace call_set_header
  replace-InStep hr st g h =
      if-both ActInStep (not (empty hr.new_value) && length hr.element_rules == 0) _ _ _ _
        (value-InStep hr.new_value st g h) h

  add-InStep :
      (hr : HeaderRule) (st : State R) (g : CppEmitter)
      → InStep st g
      → ActInStep (run_add hr st) (emit_add hr g)
  unfolding run_add emit_add call_add_header
  add-InStep hr st g h = value-InStep hr.new_value st g h

  log-InStep :
      (hr : HeaderRule) (st : State R) (g : CppEmitter)
      → InStep st g
      → ActInStep (run_log hr st) (emit_log hr g)
  unfolding run_log emit_log
  log-InStep hr st g h = message-InStep hr.new_value hr.name st g h

  reject-InStep :
      (v : Value) (name : Bytes) (st : State R) (g : CppEmitter)
      → InStep st g
      → ActInStep (run_reject v name st) (emit_reject v name g)
  unfolding run_reject emit_reject
  reject-InStep v name st g h = message-InStep v name st g h

  -- An action that rejects for one rejects for the other.
  abbrev pub ActionInStep : Bool × State R → Bool × List Stmt × CppEmitter → Type 0
  ActionInStep (b, st) (terminated, ss, g) = (b ≡ terminated) × InStep st g

  pub action-InStep :
      (hr : HeaderRule) (idx : ℕ) (s : HmrStr) (have_hv : Bool) (hv : Option Expr) (st : State R)
      (g : CppEmitter)
      → InStep st g
      → ActionInStep (run_header_action hr idx s have_hv st) (emit_header_action hr idx hv g)
  unfolding run_header_action emit_header_action call_delete_header
  action-InStep hr idx s have_hv hv st g h =
      elim hr.action
        as (λ a.
          let hr' = record hr { action = a } in
          ActionInStep (run_header_action hr' idx s have_hv st) (emit_header_action hr' idx hv g)) [
            | HeaderAction.add ↦ (refl, add-InStep hr st g h)
            | HeaderAction.replace ↦ (refl, replace-InStep hr st g h)
            | HeaderAction.manipulate ↦ (refl, replace-InStep hr st g h)
            | HeaderAction.delete ↦ (refl, h)
            | HeaderAction.delete_header ↦ (refl, h)
            | HeaderAction.store ↦ (refl, run_store-InStep hr idx s have_hv hv st g h)
            | HeaderAction.log ↦ (refl, log-InStep hr st g h)
            | HeaderAction.reject ↦ (refl, reject-InStep hr.new_value hr.name st g h)
            | _ ↦ (refl, h)
          ]

  set_element-InStep :
      (name hv nv : HmrStr) (nm hv' nv' : Expr) (e : HmrUriElement) (st : State R) (g : CppEmitter)
      → InStep st g
      → ActInStep (set_element name hv e nv st) (emit_set_element nm hv' e nv' g)
  unfolding set_element emit_set_element call_set_header next_temp
  set_element-InStep name hv nv nm hv' nv' e st g h = if-both ActInStep (is_whole e) _ _ _ _ h h

  element_replace-InStep :
      (name hv : HmrStr) (nm hv' : Expr) (e : HmrUriElement) (er : ElementRule) (st : State R)
      (g : CppEmitter)
      → InStep st g
      → ActInStep (run_element_replace name hv e er st) (emit_element_replace nm hv' e er g)
  unfolding run_element_replace emit_element_replace
  element_replace-InStep name hv nm hv' e er st g h =
      set_element-InStep name hv _ nm hv' _ e _ _ (value-InStep er.new_value st g h)

  element_delete-InStep :
      (name hv : HmrStr) (nm hv' : Expr) (e : HmrUriElement) (st : State R) (g : CppEmitter)
      → InStep st g
      → ActInStep (run_element_delete name hv e st) (emit_element_delete nm hv' e g)
  unfolding run_element_delete emit_element_delete call_delete_header
  element_delete-InStep name hv nm hv' e st g h =
      if-both ActInStep (is_whole e) _ _ _ _ h (set_element-InStep name hv _ nm hv' _ e st g h)

  -- In the scan, no element rule ends the rule.
  abbrev pub FlowInStep : {A : Type 0} → Flow × State R → List A × CppEmitter → Type 0
  FlowInStep (f, st) (ss, g) = (f ≡ continue_walk) × InStep st g

  pub element_action-InStep :
      (hr : HeaderRule) (er : ElementRule) (e : HmrUriElement) (hv ev : HmrStr) (nm hv' ev' : Expr)
      (st : State R) (g : CppEmitter)
      → InStep st g
      → FlowInStep
          (run_element_action hr er e hv ev true st)
          (emit_element_action hr er e nm hv' ev' g)
  unfolding run_element_action emit_element_action
  element_action-InStep hr er e hv ev nm hv' ev' st g h =
      elim er.action
        as (λ a.
          let er' = record er { action = a } in
          FlowInStep (run_element_action hr er' e hv ev true st)
            (emit_element_action hr er' e nm hv' ev' g)) [
              | ElementAction.replace ↦ (refl, element_replace-InStep _ hv nm hv' e er st g h)
              | ElementAction.delete_element ↦ (refl, element_delete-InStep _ hv nm hv' e st g h)
              | ElementAction.store ↦ (refl, store-InStep _ ev st g h)
              | ElementAction.reject ↦ (refl, reject-InStep er.new_value er.name st g h)
              | _ ↦ (refl, h)
            ]

  pub element_value-InStep :
      (hv : Expr) (e : HmrUriElement) (st : State R) (g : CppEmitter)
      → InStep st g
      → InStep st (emit_element_value hv e g).2
  unfolding emit_element_value next_temp
  element_value-InStep hv e st g h =
      if_either (λ (x : List Stmt × Expr × CppEmitter). InStep st x.2) (is_whole e) _ _ h h
