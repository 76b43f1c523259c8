-- ===== src/Codegen/Refinement.antt =====
-- Runs of the emitted body of hmr_apply (src/codegen/cpp_generator.cpp), beside walk and apply of
-- src/interp/interpreter.cpp.
use olproff_fastsbc_hmr.Base.{ℕ, ◌+◌, true, false, some, List, [], ◌∷◌, ◌++◌, ◌≡◌, refl, ◌∙◌}
use olproff_fastsbc_hmr.Arena.{null_str}
use olproff_fastsbc_hmr.Sip.{HmrSipMsg}
use olproff_fastsbc_hmr.Runtime.{HmrContext}
use olproff_fastsbc_hmr.Ast.{HeaderRule, Ruleset}
use olproff_fastsbc_hmr.Runtime.Matching.{Search}
use olproff_fastsbc_hmr.Interp.{State}
use olproff_fastsbc_hmr.Interp.Rules.{
  Flow, continue_walk, rejected, HmrVerdict, verdict_rejected, run_header_action,
}
use olproff_fastsbc_hmr.Interp.Walk
use olproff_fastsbc_hmr.Interp.Walk.{
  any_method, is_store, is_rejected, then_elements, run_element_rules, run_matched_rule,
  run_header_rule, walk, scan_tables, apply,
}
use olproff_fastsbc_hmr.Codegen.{RuleBlock, CppEmitter}
use olproff_fastsbc_hmr.Codegen.Rules.{
  emit_header_action, emit_type_guard, emit_method_guard, emit_header_value, emit_header_guard,
  emit_rest, emit_head, emit_header_rule, emit_rules, new_emitter, emit,
}
use olproff_fastsbc_hmr.Codegen.Exec.{Env, exec_items, hmr_apply}
use olproff_fastsbc_hmr.Codegen.Grows.{Covers}
use olproff_fastsbc_hmr.Codegen.Growth.{emit_header_action-Grows}
use olproff_fastsbc_hmr.Codegen.ElementGrowth.{emit_rest-Grows, emit_rules-Grows}
use olproff_fastsbc_hmr.Codegen.Actions.{header_action_runs}
use olproff_fastsbc_hmr.Codegen.Elements.{result}
use olproff_fastsbc_hmr.Codegen.Scan.{scan_tables-emit}
use olproff_fastsbc_hmr.Codegen.Heads.{
  items_after, guarded, action_then, type_guard_runs, method_guard_runs, wants_header, header_value,
  header_value_runs, header_guard, header_guard_runs,
}

module _ {R : Type 0} (search_in : Search R) where
  header_rule_runs :
      (hr : HeaderRule) (idx : ℕ) (env : Env) (st : State R) (g : CppEmitter)
      → Covers st.tables (emit_header_rule hr idx g).1
      → (exec_items search_in (emit_header_rule hr idx g).0.items env st
          ≡ result search_in (run_header_rule search_in hr idx false st))
        × ((run_header_rule search_in hr idx false st).1.tables ≡ st.tables)
  unfolding emit_header_rule emit_head run_header_rule run_matched_rule
  header_rule_runs hr idx env st g c =
      let (ms, g1) = emit_method_guard hr.methods g in
      let (vs, hv, g2) = emit_header_value hr g1 in
      let (gs, g3) = emit_header_guard hr hv g2 in
      let (terminated, acts, g4) = emit_header_action hr idx hv g3 in
      let rest = (emit_rest hr terminated g4).0 in
      let c3 =
        (emit_header_action-Grows hr idx hv g3).1 st.tables
          ((emit_rest-Grows hr terminated g4).1 st.tables c) in
      let (env1, checked) = method_guard_runs search_in hr.methods env st g in
      let (env2, fetched, holds) = header_value_runs search_in hr env1 st g1 in
      let (matched, same) = header_guard_runs search_in hr hv env2 st g2 holds c3 in
      let (passes, st') = header_guard search_in hr st in
      let r =
        run_header_action hr idx (header_value search_in hr st) (wants_header search_in hr) st' in
      let acted =
        header_action_runs search_in hr idx (header_value search_in hr st)
          (wants_header search_in hr) hv env2 st' g3 holds in
      let ended_ =
        action_then search_in hr r (emit_header_action hr idx hv g3) env2 st' g3 acted
          (rw same c) in
      let from_guard =
        guarded search_in passes gs acts rest env2 env2 st st' (then_elements search_in hr false r)
          matched same ended_ in
      let from_value =
        guarded search_in true vs (gs ++ acts) rest env1 env2 st st _ fetched refl from_guard in
      let from_method =
        guarded search_in (Walk.method_guard hr.methods st) ms (vs ++ (gs ++ acts)) rest env env1 st
          st _ checked refl from_value in
      let (runs, kept) =
        guarded search_in (Walk.type_guard hr.msg_type st.msg) (emit_type_guard hr.msg_type)
          (ms ++ (vs ++ (gs ++ acts))) rest env env st st _
          (type_guard_runs search_in hr.msg_type env st) refl from_method in
      (
        items_after search_in (emit_type_guard hr.msg_type ++ (ms ++ (vs ++ (gs ++ acts)))) rest env
              st
            ∙ runs,
        kept,
      )

  rule_then :
      (b : RuleBlock) (bs : List RuleBlock) (k : State R → HmrVerdict × State R) (st : State R)
      (r : Flow × State R)
      → exec_items search_in b.items (λ _. null_str) st ≡ result search_in r
      → hmr_apply search_in bs r.1 ≡ some (k r.1)
      → hmr_apply search_in (b ∷ bs) st
        ≡ some (elim (is_rejected r.0) [ true ↦ (verdict_rejected, r.1) | false ↦ k r.1 ])
  unfolding hmr_apply
  rule_then b bs k st (continue_walk, st') run next = rw (run, hmr_apply) next
  rule_then b bs k st (rejected, st') run next = rw (run, hmr_apply) refl

  rules_run :
      (hrs : List HeaderRule) (i : ℕ) (st : State R) (g : CppEmitter)
      → Covers st.tables (emit_rules hrs i g).1
      → hmr_apply search_in (emit_rules hrs i g).0 st ≡ some (walk search_in hrs i false st)
  unfolding hmr_apply emit_rules walk
  rules_run [] i st g c = refl
  rules_run (hr ∷ hrs) i st g c =
      let (b, g') = emit_header_rule hr i g in
      let r = run_header_rule search_in hr i false st in
      let (run, same) =
        header_rule_runs hr i (λ _. null_str) st g
          ((emit_rules-Grows hrs (i + 1) g').1 st.tables c) in
      rule_then b (emit_rules hrs (i + 1) g').0 (walk search_in hrs (i + 1) false) st r run
        (rules_run hrs (i + 1) r.1 g' (rw same c))

-- For every ruleset, message and context, and every regex search: the body that the generator emits,
-- run with the calls of the C ABI, ends (no lambda runs off its end), with the verdict, the message and
-- the context that the interpreter ends with.
pub emit-apply :
    {R : Type 0} (search_in : Search R) (rs : Ruleset) (m : HmrSipMsg) (c : HmrContext R)
    → hmr_apply search_in
        (emit rs).0
        (record { tables = scan_tables search_in rs; msg = some m; ctx = some c })
      ≡ some (apply search_in rs m c)
unfolding emit apply
emit-apply search_in rs m c =
    rules_run search_in rs.header_rules 0
      (record { tables = scan_tables search_in rs; msg = some m; ctx = some c }) new_emitter
      (rw (scan_tables-emit search_in rs) ((λ k id h. h), (λ p f i h. h)))
