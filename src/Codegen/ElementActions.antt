-- ===== src/Codegen/ElementActions.antt =====
-- Runs of the action of an element rule (src/codegen/cpp_generator.cpp), beside run_element_action of
-- src/interp/interpreter.cpp.
use olproff_fastsbc_hmr.Base.{
  Bool, true, false, List, [], ◌∷◌, ◌++◌, ◌==◌, if◌then◌else◌, length, ◌≡◌, refl, ◌∙◌, arith,
}
use olproff_fastsbc_hmr.Text.{codes}
use olproff_fastsbc_hmr.Arena.{HmrStr}
use olproff_fastsbc_hmr.Uri.{HmrUriElement}
use olproff_fastsbc_hmr.Ast.{ElementAction, ElementRule, HeaderRule}
use olproff_fastsbc_hmr.Runtime.Matching.{Search}
use olproff_fastsbc_hmr.Runtime.Builder
use olproff_fastsbc_hmr.Interp.{State, intern, packet_of}
use olproff_fastsbc_hmr.Interp.Eval.{eval_value}
use olproff_fastsbc_hmr.Interp.Rules.{
  Flow, continue_walk, rejected, call_set_header, call_delete_header, is_whole,
}
use olproff_fastsbc_hmr.Interp.Walk.{
  set_element, run_element_replace, run_element_delete, run_element_action,
}
use olproff_fastsbc_hmr.Codegen.{Expr, str_lit, Stmt, return, CppEmitter, next_temp}
use olproff_fastsbc_hmr.Codegen.Emit.{emit_value}
use olproff_fastsbc_hmr.Codegen.Rules.{
  emit_set_element, emit_element_replace, emit_element_delete, emit_element_action,
}
use olproff_fastsbc_hmr.Codegen.Exec.{Env, assign, value_of, exec_stmt, exec}
use olproff_fastsbc_hmr.Codegen.Agreement.{if-both}
use olproff_fastsbc_hmr.Codegen.Growth.{emit_value-Grows}
use olproff_fastsbc_hmr.Codegen.ElementGrowth.{emit_set_element-Grows}
use olproff_fastsbc_hmr.Codegen.Values.{
  Below, Agree-refl, Below-mono, Agree-trans, assign-Agree, assign_same, exec_then, value_runs,
}
use olproff_fastsbc_hmr.Codegen.Actions.{ActRuns, EndRuns, return_behind, reject_runs, store_runs}

module _ {R : Type 0} (search_in : Search R) where
  set_element_runs :
      (nm hv nv : Expr) (name old new : HmrStr) (e : HmrUriElement) (env : Env) (st : State R)
      (g : CppEmitter)
      → Below g.temp_ nm
      → value_of env nm ≡ name
      → value_of env hv ≡ old
      → value_of env nv ≡ new
      → ActRuns search_in env st g (set_element name old e new st) (emit_set_element nm hv e nv g)
  unfolding exec exec_stmt set_element emit_set_element call_set_header next_temp
  set_element_runs nm hv nv name old new e env st g b p q r =
      rw (← p, ← q, ← r)
        (if-both (ActRuns search_in env st g) (is_whole e) _ _ _ _
          (λ c. (env, refl, Agree-refl g.temp_ env, refl))
          (λ c.
            let rebuilt =
              (Builder.uri_set (packet_of st.msg) st.ctx (value_of env hv) e (value_of env nv)).0 in
            let agree = assign-Agree g.temp_ g.temp_ rebuilt env (omega arith) in
            (
              assign g.temp_ rebuilt env,
              rw (agree nm b, assign_same g.temp_ rebuilt env) refl,
              agree,
              refl,
            )))

  element_replace_runs :
      (nm hv : Expr) (name old : HmrStr) (e : HmrUriElement) (er : ElementRule) (env : Env)
      (st : State R) (g : CppEmitter)
      → Below g.temp_ nm
      → Below g.temp_ hv
      → value_of env nm ≡ name
      → value_of env hv ≡ old
      → ActRuns search_in env st g
          (run_element_replace name old e er st)
          (emit_element_replace nm hv e er g)
  unfolding run_element_replace emit_element_replace
  element_replace_runs nm hv name old e er env st g b k p q c =
      let (ss, nv, g') = emit_value er.new_value g in
      let grows = emit_value-Grows er.new_value g in
      let (env', run, value, agree, same) =
        value_runs search_in er.new_value env st g
          ((emit_set_element-Grows nm hv e nv g').1 st.tables c) in
      let (new, st') = eval_value er.new_value st in
      let (env'', run', agree', same') =
        set_element_runs nm hv nv name old new e env' st' g'
          (Below-mono g.temp_ g'.temp_ nm grows.0 b) (agree nm b ∙ p) (agree hv k ∙ q) value
          (rw same c) in
      (
        env'',
        exec_then search_in ss _ env st _ run ∙ run',
        Agree-trans g.temp_ g'.temp_ env env' env'' grows.0 agree agree',
        same' ∙ same,
      )

  element_delete_runs :
      (nm hv : Expr) (name old : HmrStr) (e : HmrUriElement) (env : Env) (st : State R)
      (g : CppEmitter)
      → Below g.temp_ nm
      → value_of env nm ≡ name
      → value_of env hv ≡ old
      → ActRuns search_in env st g
          (run_element_delete name old e st)
          (emit_element_delete nm hv e g)
  unfolding exec exec_stmt run_element_delete emit_element_delete call_delete_header
  element_delete_runs nm hv name old e env st g b p q =
      if-both (ActRuns search_in env st g) (is_whole e) _ _ _ _
        (λ c. (env, rw (← p) refl, Agree-refl g.temp_ env, refl))
        (set_element_runs nm hv (str_lit []) name old (intern []) e env st g b p q refl)

  abbrev pub ended : Flow × State R → Bool
  ended (continue_walk, st) = false
  ended (rejected, st) = true

  -- The lambda of an element rule returns whether the rule rejects.
  abbrev pub RuleRuns : Env → State R → Flow × State R → List Stmt × CppEmitter → Type 0
  RuleRuns env st r y = EndRuns search_in env st (ended r) r.1 y

  pub element_action_runs :
      (hr : HeaderRule) (er : ElementRule) (e : HmrUriElement) (nm hv ev : Expr) (old s : HmrStr)
      (env : Env) (st : State R) (g : CppEmitter)
      → Below g.temp_ nm
      → Below g.temp_ hv
      → value_of env nm ≡ intern hr.header_name
      → value_of env hv ≡ old
      → value_of env ev ≡ s
      → RuleRuns env st
          (run_element_action hr er e old s false st)
          (emit_element_action hr er e nm hv ev g)
  unfolding exec exec_stmt run_element_action emit_element_action
  element_action_runs hr er e nm hv ev old s env st g b k p q r =
      elim er.action
        as (λ a.
          let er' = record er { action = a } in
          RuleRuns env st (run_element_action hr er' e old s false st)
            (emit_element_action hr er' e nm hv ev g)) [
              | ElementAction.replace ↦
                  return_behind search_in (emit_element_replace nm hv e er g).0 g
                    (emit_element_replace nm hv e er g).1 false env st _
                    (element_replace_runs nm hv (intern hr.header_name) old e er env st g b k p q)
              | ElementAction.delete_element ↦
                  return_behind search_in (emit_element_delete nm hv e g).0 g
                    (emit_element_delete nm hv e g).1 false env st _
                    (element_delete_runs nm hv (intern hr.header_name) old e env st g b p q)
              | ElementAction.store ↦ λ c.
                  let key = if length er.name == 0 then hr.name ++ codes ".el" else er.name in
                  store_runs search_in key ev s (return false ∷ []) env st g c r
              | ElementAction.reject ↦ reject_runs search_in er.new_value er.name env st g
              | _ ↦ λ c. (refl, refl)
            ]
