-- ===== src/Codegen/Actions.antt =====
-- Runs of the statements of an action (src/codegen/cpp_generator.cpp), beside the actions of
-- src/interp/interpreter.cpp.
use olproff_fastsbc_hmr.Base.{
  ℕ, zero, suc, ◌+◌, Bool, true, false, not, ◌&&◌, Option, none, some, List, [], ◌∷◌, ◌++◌, ◌==◌,
  if◌then◌else◌, length, ◌≡◌, refl, ap, ◌∙◌, arith,
}
use olproff_fastsbc_hmr.Text.{Bytes, codes}
use olproff_fastsbc_hmr.Arena.{HmrStr}
use olproff_fastsbc_hmr.Value.{Value, empty}
use olproff_fastsbc_hmr.Ast.{HeaderAction, HeaderRule}
use olproff_fastsbc_hmr.Lowering.{is_pattern, count_capturing_groups, capture_slot_key, to_string}
use olproff_fastsbc_hmr.Runtime.Matching
use olproff_fastsbc_hmr.Runtime.Matching.{Search}
use olproff_fastsbc_hmr.Runtime.Builder
use olproff_fastsbc_hmr.Interp.{State, intern, packet_of}
use olproff_fastsbc_hmr.Interp.Eval.{eval_value, guard_pattern}
use olproff_fastsbc_hmr.Interp.Rules.{
  call_set_header, call_add_header, call_delete_header, call_get_header, call_store, store_groups,
  message_value, run_store, run_replace, run_add, run_log, run_reject, run_header_action,
}
use olproff_fastsbc_hmr.Codegen.{
  Expr, temp, str_lit, Stmt, add_header, set_header, store, log, reject, return, CppEmitter,
  slot_for, next_temp,
}
use olproff_fastsbc_hmr.Codegen.Emit.{emit_value, pattern_of}
use olproff_fastsbc_hmr.Codegen.Rules.{
  emit_message, emit_groups, emit_plain_store, emit_store, emit_replace, emit_add, emit_log,
  emit_reject, emit_header_action,
}
use olproff_fastsbc_hmr.Codegen.Exec.{Env, assign, value_of, goes, returns, exec_stmt, exec}
use olproff_fastsbc_hmr.Codegen.Agreement.{if-both}
use olproff_fastsbc_hmr.Codegen.Grows.{Covers, slot_for-Covers, slot_for-Grows}
use olproff_fastsbc_hmr.Codegen.Growth.{emit_groups-Grows}
use olproff_fastsbc_hmr.Codegen.Values.{
  Agree, Agree-refl, Agree-trans, assign-Agree, assign_same, exec_then, exec_single, ValueRuns,
  value_runs,
}

module _ {R : Type 0} (search_in : Search R) where
  -- The statements go on, to the state of the interpreter.
  abbrev pub ActRuns : Env → State R → CppEmitter → State R → List Stmt × CppEmitter → Type 0
  ActRuns env st g st' (ss, g') =
      Covers st.tables g'
      → (env' : Env) × (exec search_in ss env st ≡ goes env' st')
        × Agree g.temp_ env env'
        × (st'.tables ≡ st.tables)

  message_runs :
      (v : Value) (name : Bytes) (env : Env) (st : State R) (g : CppEmitter)
      → ValueRuns search_in env st g (message_value v name st) (emit_message v name g)
  unfolding message_value emit_message exec
  message_runs v name env st g =
      if-both (ValueRuns search_in env st g) (empty v) _ _ _ _
        (λ c. (env, refl, refl, Agree-refl g.temp_ env, refl)) (value_runs search_in v env st g)

  pub store_runs :
      (key : Bytes) (e : Expr) (s : HmrStr) (rest : List Stmt) (env : Env) (st : State R)
      (g : CppEmitter)
      → Covers st.tables (slot_for key g).1
      → value_of env e ≡ s
      → (exec search_in (store (slot_for key g).0 e ∷ rest) env st
          ≡ exec search_in rest env (call_store key s st))
        × ((call_store key s st).tables ≡ st.tables)
  unfolding exec exec_stmt call_store
  store_runs key e s rest env st g c h =
      rw (slot_for-Covers key st.tables g c, call_store) (rw (← h) refl, refl)

  groups_run :
      (left group : ℕ) (rule : Bytes) (env : Env) (st : State R) (g : CppEmitter)
      → ActRuns env st g (store_groups left group rule st) (emit_groups left group rule g)
  unfolding exec exec_stmt store_groups emit_groups next_temp
  groups_run zero group rule env st g c = (env, refl, Agree-refl g.temp_ env, refl)
  groups_run (suc left) group rule env st g c =
      let (cap, g1) = next_temp g in
      let key = capture_slot_key rule group in
      let (slot, g2) = slot_for key g1 in
      let s = Matching.get_capture st.ctx group in
      let env1 = assign g.temp_ s env in
      let st' = call_store key s st in
      let c' = (emit_groups-Grows left (group + 1) rule g2).1 st.tables c in
      let (step, same) =
        store_runs key (temp g.temp_) s (emit_groups left (group + 1) rule g2).0 env1 st g1 c'
          (assign_same g.temp_ s env) in
      let (env', runs, agree, same') = groups_run left (group + 1) rule env1 st' g2 (rw same c) in
      (
        env',
        step ∙ runs,
        Agree-trans g.temp_ g2.temp_ env env1 env' (omega (arith, (slot_for-Grows key g1).0))
            (assign-Agree g.temp_ g.temp_ s env (omega arith)) agree,
        same' ∙ same,
      )

  -- The temporary of the header value, where it was fetched.
  abbrev pub Holds : Env → HmrStr → Bool → Option Expr → Type 0
  Holds env s b none = b ≡ false
  Holds env s b (some e) = (b ≡ true) × (value_of env e ≡ s)

  plain_store_runs :
      (rule name : Bytes) (s : HmrStr) (b : Bool) (hv : Option Expr) (env : Env) (st : State R)
      (g : CppEmitter)
      → Holds env s b hv
      → ActRuns env st g
          (call_store rule (if b then s else call_get_header (intern name) st) st)
          (emit_plain_store rule name hv g)
  unfolding exec exec_stmt emit_plain_store next_temp
  plain_store_runs rule name s b (some e) env st g h c =
      let (step, same) = store_runs rule e s [] env st g c h.1 in
      rw h.0 (env, step, Agree-refl g.temp_ env, same)
  plain_store_runs rule name s b none env st g h c =
      let value = call_get_header (intern name) st in
      let env' = assign g.temp_ value env in
      let (step, same) =
        store_runs rule (temp g.temp_) value [] env' st (next_temp g).1 c
          (assign_same g.temp_ value env) in
      rw h (env', step, assign-Agree g.temp_ g.temp_ value env (omega arith), same)

  store_action_runs :
      (hr : HeaderRule) (idx : ℕ) (s : HmrStr) (b : Bool) (hv : Option Expr) (env : Env)
      (st : State R) (g : CppEmitter)
      → Holds env s b hv
      → ActRuns env st g (run_store hr idx s b st) (emit_store hr idx hv g)
  unfolding run_store emit_store guard_pattern pattern_of
  store_action_runs hr idx s b hv env st g h =
      let rule = if length hr.name == 0 then codes "rule" ++ to_string idx else hr.name in
      if-both (ActRuns env st g) (is_pattern hr.comparison) _ _ _ _
        (groups_run (count_capturing_groups (guard_pattern hr.match_value) + 1) 0 rule env st g)
        (plain_store_runs rule hr.header_name s b hv env st g h)

  -- A value, and one statement that uses it.
  value_then :
      (x : HmrStr × State R) (y : List Stmt × Expr × CppEmitter) (f : Expr → Stmt)
      (step : HmrStr → State R → State R) (env : Env) (st : State R) (g : CppEmitter)
      → ((e : Expr) (env' : Env) (st' : State R)
          → exec_stmt search_in (f e) env' st' ≡ goes env' (step (value_of env' e) st'))
      → ((s : HmrStr) (st' : State R) → (step s st').tables ≡ st'.tables)
      → ValueRuns search_in env st g x y
      → ActRuns env st g (step x.0 x.1) (y.0 ++ f y.1 ∷ [], y.2)
  value_then (s, st') (ss, e, g') f step env st g does keeps runs c =
      let (env', run, value, agree, same) = runs c in
      (
        env',
        exec_then search_in ss (f e ∷ []) env st _ run
            ∙ exec_single search_in (f e) env' st'
            ∙ does e env' st'
            ∙ ap (λ v. goes env' (step v st')) value,
        agree,
        keeps s st' ∙ same,
      )

  add_runs :
      (hr : HeaderRule) (env : Env) (st : State R) (g : CppEmitter)
      → ActRuns env st g (run_add hr st) (emit_add hr g)
  unfolding exec_stmt run_add emit_add call_add_header
  add_runs hr env st g =
      value_then (eval_value hr.new_value st) (emit_value hr.new_value g)
        (add_header (str_lit hr.header_name)) (call_add_header (intern hr.header_name)) env st g
        (λ e env' st'. refl) (λ s st'. refl) (value_runs search_in hr.new_value env st g)

  replace_runs :
      (hr : HeaderRule) (env : Env) (st : State R) (g : CppEmitter)
      → ActRuns env st g (run_replace hr st) (emit_replace hr g)
  unfolding exec exec_stmt run_replace emit_replace call_set_header
  replace_runs hr env st g =
      if-both (ActRuns env st g) (not (empty hr.new_value) && length hr.element_rules == 0) _ _ _ _
        (value_then (eval_value hr.new_value st) (emit_value hr.new_value g)
          (set_header (str_lit hr.header_name)) (call_set_header (intern hr.header_name)) env st g
          (λ e env' st'. refl) (λ s st'. refl) (value_runs search_in hr.new_value env st g))
        (λ c. (env, refl, Agree-refl g.temp_ env, refl))

  log_runs :
      (hr : HeaderRule) (env : Env) (st : State R) (g : CppEmitter)
      → ActRuns env st g (run_log hr st) (emit_log hr g)
  unfolding exec_stmt run_log emit_log
  log_runs hr env st g =
      value_then (message_value hr.new_value hr.name st) (emit_message hr.new_value hr.name g) log
        (λ s st'. record st' { ctx = Builder.log (packet_of st'.msg) st'.ctx s }) env st g
        (λ e env' st'. refl) (λ s st'. refl) (message_runs hr.new_value hr.name env st g)

  -- The statements return `b`.
  abbrev pub EndRuns : Env → State R → Bool → State R → List Stmt × CppEmitter → Type 0
  EndRuns env st b st' (ss, g') =
      Covers st.tables g' → (exec search_in ss env st ≡ returns b st') × (st'.tables ≡ st.tables)

  -- Statements that go on, and a return behind them.
  pub return_behind :
      (ss : List Stmt) (g g' : CppEmitter) (b : Bool) (env : Env) (st st' : State R)
      → ActRuns env st g st' (ss, g')
      → EndRuns env st b st' (ss ++ return b ∷ [], g')
  unfolding exec exec_stmt
  return_behind ss g g' b env st st' runs c =
      let (env', run, agree, same) = runs c in
      (exec_then search_in ss (return b ∷ []) env st _ run, same)

  pub reject_runs :
      (v : Value) (name : Bytes) (env : Env) (st : State R) (g : CppEmitter)
      → EndRuns env st true (run_reject v name st) (emit_reject v name g)
  unfolding exec exec_stmt run_reject emit_reject
  reject_runs v name env st g c =
      let (env', run, value, agree, same) = message_runs v name env st g c in
      let (ss, e, g') = emit_message v name g in
      let st' = (message_value v name st).1 in
      (
        exec_then search_in ss (reject e ∷ return true ∷ []) env st _ run
            ∙ ap
                (λ s.
                  returns true
                    (record st' { ctx = Builder.reject (packet_of st'.msg) st'.ctx 403 s }))
                value,
        same,
      )

  -- The statements return where the action rejects, and go on elsewhere.
  abbrev pub HeadRuns :
      Env → State R → CppEmitter → Bool × State R → Bool × List Stmt × CppEmitter → Type 0
  HeadRuns env st g (true, st') (b, ss, g') = (b ≡ true) × EndRuns env st true st' (ss, g')
  HeadRuns env st g (false, st') (b, ss, g') = (b ≡ false) × ActRuns env st g st' (ss, g')

  pub header_action_runs :
      (hr : HeaderRule) (idx : ℕ) (s : HmrStr) (b : Bool) (hv : Option Expr) (env : Env)
      (st : State R) (g : CppEmitter)
      → Holds env s b hv
      → HeadRuns env st g (run_header_action hr idx s b st) (emit_header_action hr idx hv g)
  unfolding exec exec_stmt run_header_action emit_header_action call_delete_header
  header_action_runs hr idx s b hv env st g h =
      elim hr.action
        as (λ a.
          let hr' = record hr { action = a } in
          HeadRuns env st g (run_header_action hr' idx s b st) (emit_header_action hr' idx hv g)) [
            | HeaderAction.add ↦ (refl, add_runs hr env st g)
            | HeaderAction.replace ↦ (refl, replace_runs hr env st g)
            | HeaderAction.manipulate ↦ (refl, replace_runs hr env st g)
            | HeaderAction.delete ↦ (refl, (λ c. (env, refl, Agree-refl g.temp_ env, refl)))
            | HeaderAction.delete_header ↦ (refl, (λ c. (env, refl, Agree-refl g.temp_ env, refl)))
            | HeaderAction.store ↦ (refl, store_action_runs hr idx s b hv env st g h)
            | HeaderAction.log ↦ (refl, log_runs hr env st g)
            | HeaderAction.reject ↦ (refl, reject_runs hr.new_value hr.name env st g)
            | _ ↦ (refl, (λ c. (env, refl, Agree-refl g.temp_ env, refl)))
          ]
