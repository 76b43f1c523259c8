-- ===== src/Codegen/Values.antt =====
-- Runs of the statements that emit_value appends (src/codegen/cpp_generator.cpp), beside eval_value of
-- src/interp/interpreter.cpp.
use Prim.{Unit, tt}
use olproff_fastsbc_hmr.Base.{
  ℕ, ◌≤◌, ◌<◌, none, some, List, [], ◌∷◌, ◌++◌, ◌==◌, length, ◌≡◌, refl, ap, ◌∙◌, inl, inr, arith,
  Bool-cases, ==_refl, lt→==_false,
}
use olproff_fastsbc_hmr.Text.{Bytes}
use olproff_fastsbc_hmr.Arena.{HmrStr}
use olproff_fastsbc_hmr.Value.{
  ValueRef, ValueSegment, lit, ref, variable, capture, rule_ref, Value, empty, single_ref,
  is_pure_literal,
}
use olproff_fastsbc_hmr.Lowering.{variable_id, capture_slot_key, ref_base_name}
use olproff_fastsbc_hmr.Runtime.Matching.{Search}
use olproff_fastsbc_hmr.Runtime.Builder
use olproff_fastsbc_hmr.Interp
use olproff_fastsbc_hmr.Interp.{Tables, State, index_or_zero, intern}
use olproff_fastsbc_hmr.Interp.Eval.{eval_ref, append_segments, build_value, eval_value}
use olproff_fastsbc_hmr.Codegen.{
  Expr, temp, str_lit, Stmt, CppEmitter, slot_for, slot_for_ref, next_temp, val_finish,
}
use olproff_fastsbc_hmr.Codegen.Emit.{emit_ref, emit_segment, emit_segments, emit_build, emit_value}
use olproff_fastsbc_hmr.Codegen.Exec.{
  Env, assign, value_of, Outcome, goes, returns, exec_stmt, exec,
}
use olproff_fastsbc_hmr.Codegen.Agreement.{if-both}
use olproff_fastsbc_hmr.Codegen.Grows.{Covers, slot_for-Covers}
use olproff_fastsbc_hmr.Codegen.Growth.{emit_segments-Grows}

-- An expression whose temporaries are below `n`.
abbrev pub Below : ℕ → Expr → Type 0
Below n (temp k) = k < n
Below n (str_lit s) = Unit

-- The expressions below `n` keep their value.
abbrev pub Agree : ℕ → Env → Env → Type 0
Agree n env env' = (x : Expr) → Below n x → value_of env' x ≡ value_of env x

pub Agree-refl : (n : ℕ) (env : Env) → Agree n env env
Agree-refl n env x b = refl

pub Below-mono : (m n : ℕ) (x : Expr) → m ≤ n → Below m x → Below n x
Below-mono m n (temp k) h b = omega (arith, h, b)
Below-mono m n (str_lit s) h b = tt

pub Agree-trans : (m n : ℕ) (e1 e2 e3 : Env) → m ≤ n → Agree m e1 e2 → Agree n e2 e3 → Agree m e1 e3
Agree-trans m n e1 e2 e3 h p q x b = q x (Below-mono m n x h b) ∙ p x b

pub assign-Agree : (n t : ℕ) (s : HmrStr) (env : Env) → n ≤ t → Agree n env (assign t s env)
assign-Agree n t s env h (temp k) b = rw (lt→==_false k t (omega (arith, h, b))) refl
assign-Agree n t s env h (str_lit x) b = refl

pub assign_same : (t : ℕ) (s : HmrStr) (env : Env) → assign t s env t ≡ s
assign_same t s env = rw (==_refl t) refl

abbrev ref_key : ValueRef → Bytes
ref_key r = capture_slot_key (ref_base_name r.name) (index_or_zero r.capture_index)

module _ {R : Type 0} (search_in : Search R) where
  abbrev pub resume : List Stmt → Outcome R → Outcome R
  resume ys (goes env st) = exec search_in ys env st
  resume ys (returns b st) = returns b st

  pub exec-append :
      (xs ys : List Stmt) (env : Env) (st : State R)
      → exec search_in (xs ++ ys) env st ≡ resume ys (exec search_in xs env st)
  unfolding exec
  exec-append [] ys env st = refl
  exec-append (x ∷ xs) ys env st =
      elim (exec_stmt search_in x env st)
        as (λ o.
          (elim o [ goes e s ↦ exec search_in (xs ++ ys) e s | returns b s ↦ returns b s ])
          ≡ resume ys (elim o [ goes e s ↦ exec search_in xs e s | returns b s ↦ returns b s ])) [
            | goes e s ↦ exec-append xs ys e s
            | returns b s ↦ refl
          ]

  pub exec_single :
      (s : Stmt) (env : Env) (st : State R)
      → exec search_in (s ∷ []) env st ≡ exec_stmt search_in s env st
  unfolding exec
  exec_single s env st =
      elim (exec_stmt search_in s env st)
        as (λ o. (elim o [ goes e s ↦ goes e s | returns b s ↦ returns b s ]) ≡ o) [
          | goes e s ↦ refl
          | returns b s ↦ refl
        ]

  -- Statements that are known to end in `o`, and others behind.
  pub exec_then :
      (xs ys : List Stmt) (env : Env) (st : State R) (o : Outcome R)
      → exec search_in xs env st ≡ o
      → exec search_in (xs ++ ys) env st ≡ resume ys o
  exec_then xs ys env st o h = exec-append xs ys env st ∙ ap (resume ys) h

  -- The statements compute the value into the expression, with the effect on the state that the
  -- interpreter has.
  abbrev pub ValueRuns :
      Env → State R → CppEmitter → HmrStr × State R → List Stmt × Expr × CppEmitter → Type 0
  ValueRuns env st g (s, st') (ss, e, g') =
      Covers st.tables g'
      → (env' : Env) × (exec search_in ss env st ≡ goes env' st')
        × (value_of env' e ≡ s)
        × Agree g.temp_ env env'
        × (st'.tables ≡ st.tables)

  ref_runs :
      (r : ValueRef) (env : Env) (st : State R) (g : CppEmitter)
      → ValueRuns env st g (eval_ref r st) (emit_ref r g)
  unfolding exec exec_stmt eval_ref emit_ref next_temp Interp.slot_for_ref slot_for_ref
  ref_runs r env st g =
      elim r.kind
        as (λ k.
          let r' = record r { kind = k } in ValueRuns env st g (eval_ref r' st) (emit_ref r' g)) [
            | variable ↦ λ c. (
              assign g.temp_ _ env,
              refl,
              assign_same g.temp_ _ env,
              assign-Agree g.temp_ g.temp_ _ env (omega arith),
              refl,
            )
            | capture ↦ λ c. (
              assign g.temp_ _ env,
              refl,
              assign_same g.temp_ _ env,
              assign-Agree g.temp_ g.temp_ _ env (omega arith),
              refl,
            )
            | rule_ref ↦ λ c.
                rw (slot_for-Covers (ref_key r) st.tables (next_temp g).1 c, Interp.slot_for_ref)
                  (
                    assign g.temp_ _ env,
                    refl,
                    assign_same g.temp_ _ env,
                    assign-Agree g.temp_ g.temp_ _ env (omega arith),
                    refl,
                  )
          ]

  segments_run :
      (segs : List ValueSegment) (env : Env) (st : State R) (g : CppEmitter)
      → Covers st.tables (emit_segments segs g).1
      → (exec search_in (emit_segments segs g).0 env st ≡ goes env (append_segments segs st))
        × ((append_segments segs st).tables ≡ st.tables)
  unfolding exec exec_stmt append_segments emit_segments emit_segment Interp.slot_for_ref
      slot_for_ref
  segments_run [] env st g c = (refl, refl)
  segments_run (lit text ∷ segs) env st g c = elim (Bool-cases (length text == 0)) [
    | inl e ↦ rw (e, append_segments, emit_segments) (segments_run segs env st g c)
    | inr n ↦
        rw (n, append_segments, emit_segments)
          (segments_run segs env
            (record st {
              ctx = Builder.val_append_lit (Interp.packet_of st.msg) st.ctx (intern text);
            })
            g c)
  ]
  segments_run (ref r ∷ segs) env st g c =
      (elim r.kind
          as (λ k.
            let r' = record r { kind = k } in
            Covers st.tables (emit_segments (ref r' ∷ segs) g).1
            → (exec search_in (emit_segments (ref r' ∷ segs) g).0 env st
                ≡ goes env (append_segments (ref r' ∷ segs) st))
              × ((append_segments (ref r' ∷ segs) st).tables ≡ st.tables)) [
                | variable ↦ λ c.
                    segments_run segs env
                      (record st { ctx = Builder.val_append_var st.ctx (variable_id r.name) }) g c
                | capture ↦ λ c.
                    segments_run segs env
                      (record st {
                        ctx =
                            Builder.val_append_capture (Interp.packet_of st.msg) st.ctx
                              (index_or_zero r.capture_index);
                      })
                      g c
                | rule_ref ↦ λ c.
                    let (slot, g') = slot_for (ref_key r) g in
                    rw
                      (
                        slot_for-Covers (ref_key r) st.tables g
                            ((emit_segments-Grows segs g').1 st.tables c),
                        Interp.slot_for_ref,
                        append_segments,
                      )
                      (segments_run segs env
                        (record st { ctx = Builder.val_append_slot st.ctx slot }) g' c)
              ])
        c

  pub value_runs :
      (v : Value) (env : Env) (st : State R) (g : CppEmitter)
      → ValueRuns env st g (eval_value v st) (emit_value v g)
  unfolding eval_value emit_value build_value emit_build next_temp exec exec_stmt
  value_runs v env st g =
      if-both (ValueRuns env st g) (empty v) _ _ _ _
        (λ c. (env, refl, refl, Agree-refl g.temp_ env, refl))
        (if-both (ValueRuns env st g) (is_pure_literal v) _ _ _ _
          (λ c. (env, refl, refl, Agree-refl g.temp_ env, refl))
          (elim (single_ref v)
            as (λ o.
              ValueRuns env st g (elim o [ some r ↦ eval_ref r st | none ↦ build_value v st ])
                (elim o [ some r ↦ emit_ref r g | none ↦ emit_build v g ])) [
                  | some r ↦ ref_runs r env st g
                  | none ↦ λ c.
                      let start = record st { ctx = Builder.val_reset st.ctx } in
                      let (ss, g') = emit_segments v.segments g in
                      let (runs, same) = segments_run v.segments env start g c in
                      (
                        assign g'.temp_ _ env,
                        exec_then ss (val_finish g'.temp_ ∷ []) env start _ runs,
                        assign_same g'.temp_ _ env,
                        assign-Agree g.temp_ g'.temp_ _ env (emit_segments-Grows v.segments g).0,
                        same,
                      )
                ]))
