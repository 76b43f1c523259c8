-- ===== src/Codegen/ScopedActions.antt =====
-- The emit functions of header actions of src/codegen/cpp_generator.cpp: what they use is in scope, and
-- what they declare is not.
use Prim.{tt}
use olproff_fastsbc_hmr.Base.{
  ℕ, zero, suc, ◌+◌, Bool, true, not, ◌&&◌, Option, none, some, List, [], ◌∷◌, ◌++◌, ◌==◌,
  if◌then◌else◌, length, refl, inl,
}
use olproff_fastsbc_hmr.Text.{Bytes, codes}
use olproff_fastsbc_hmr.Value.{Value, empty}
use olproff_fastsbc_hmr.Ast.{HeaderAction, HeaderRule}
use olproff_fastsbc_hmr.Lowering.{is_pattern, count_capturing_groups, capture_slot_key, to_string}
use olproff_fastsbc_hmr.Codegen.{
  Expr, str_lit, Stmt, set_header, add_header, log, reject, return, CppEmitter, slot_for, next_temp,
}
use olproff_fastsbc_hmr.Codegen.Emit.{emit_value, pattern_of}
use olproff_fastsbc_hmr.Codegen.Rules.{
  emit_message, emit_groups, emit_plain_store, emit_store, emit_replace, emit_add, emit_log,
  emit_reject, emit_header_action,
}
use olproff_fastsbc_hmr.Codegen.Agreement.{if_either}
use olproff_fastsbc_hmr.Codegen.Grows.{slot_for-Grows}
use olproff_fastsbc_hmr.Codegen.Scope.{
  KnownValue, Known, scope_of, Below, Emits, EmitsValue, Below-fresh, Below-declare, Emits-append,
}
use olproff_fastsbc_hmr.Codegen.ScopedValues.{
  Below-Grows, emit_value-EmitsValue, emit_message-EmitsValue,
}

emit_groups-Emits :
    (left group : ℕ) (rule : Bytes) (g : CppEmitter) (s : List ℕ)
    → Below g.temp_ s
    → Emits s (emit_groups left group rule g)
unfolding emit_groups next_temp
emit_groups-Emits zero group rule g s p = (tt, p)
emit_groups-Emits (suc left) group rule g s p =
    let g1 = (next_temp g).1 in
    let name = capture_slot_key rule group in
    let next =
      Below-Grows g1 (slot_for name g1).1 (g.temp_ ∷ s) (slot_for-Grows name g1)
        (Below-declare g.temp_ s p) in
    let (scoped, below) =
      emit_groups-Emits left (group + 1) rule (slot_for name g1).1 (g.temp_ ∷ s) next in
    ((tt, (Below-fresh g.temp_ s p, tt), (inl refl, tt, scoped)), below)

emit_plain_store-Emits :
    (rule name : Bytes) (hv : Option Expr) (g : CppEmitter) (s : List ℕ)
    → Below g.temp_ s
    → KnownValue s hv
    → Emits s (emit_plain_store rule name hv g)
unfolding emit_plain_store next_temp
emit_plain_store-Emits rule name (some hv) g s p known =
    ((known, tt, tt), Below-Grows g _ s (slot_for-Grows rule g) p)
emit_plain_store-Emits rule name none g s p known =
    let g1 = (next_temp g).1 in
    (
      (tt, (Below-fresh g.temp_ s p, tt), (inl refl, tt, tt)),
      Below-Grows g1 (slot_for rule g1).1 (g.temp_ ∷ s) (slot_for-Grows rule g1)
          (Below-declare g.temp_ s p),
    )

emit_store-Emits :
    (hr : HeaderRule) (idx : ℕ) (hv : Option Expr) (g : CppEmitter) (s : List ℕ)
    → Below g.temp_ s
    → KnownValue s hv
    → Emits s (emit_store hr idx hv g)
unfolding emit_store
emit_store-Emits hr idx hv g s p known =
    let rule = if length hr.name == 0 then codes "rule" ++ to_string idx else hr.name in
    if_either (Emits s) (is_pattern hr.comparison) _ _
      (emit_groups-Emits (count_capturing_groups (pattern_of hr.match_value) + 1) 0 rule g s p)
      (emit_plain_store-Emits rule hr.header_name hv g s p known)

-- A statement that uses the value, and declares nothing.
use_value :
    (ss : List Stmt) (e : Expr) (g : CppEmitter) (last : List Stmt) (s : List ℕ)
    → EmitsValue s (ss, e, g)
    → ((s' : List ℕ) → Known s' e → Below g.temp_ s' → Emits s' (last, g))
    → Emits s (ss ++ last, g)
use_value ss e g last s (scoped, known, below) then_ =
    Emits-append ss last g s scoped (then_ (scope_of ss s) known below)

emit_replace-Emits :
    (hr : HeaderRule) (g : CppEmitter) (s : List ℕ) → Below g.temp_ s → Emits s (emit_replace hr g)
unfolding emit_replace
emit_replace-Emits hr g s p =
    let (ss, v, g') = emit_value hr.new_value g in
    if_either (Emits s) (not (empty hr.new_value) && length hr.element_rules == 0) _ _
      (use_value ss v g' (set_header (str_lit hr.header_name) v ∷ []) s
        (emit_value-EmitsValue hr.new_value g s p)
        (λ s' known below. (((tt, known), tt, tt), below)))
      (tt, p)

emit_add-Emits :
    (hr : HeaderRule) (g : CppEmitter) (s : List ℕ) → Below g.temp_ s → Emits s (emit_add hr g)
unfolding emit_add
emit_add-Emits hr g s p =
    let (ss, v, g') = emit_value hr.new_value g in
    use_value ss v g' (add_header (str_lit hr.header_name) v ∷ []) s
      (emit_value-EmitsValue hr.new_value g s p) (λ s' known below. (((tt, known), tt, tt), below))

emit_log-Emits :
    (hr : HeaderRule) (g : CppEmitter) (s : List ℕ) → Below g.temp_ s → Emits s (emit_log hr g)
unfolding emit_log
emit_log-Emits hr g s p =
    let (ss, v, g') = emit_message hr.new_value hr.name g in
    use_value ss v g' (log v ∷ []) s (emit_message-EmitsValue hr.new_value hr.name g s p)
      (λ s' known below. ((known, tt, tt), below))

pub emit_reject-Emits :
    (value : Value) (name : Bytes) (g : CppEmitter) (s : List ℕ)
    → Below g.temp_ s
    → Emits s (emit_reject value name g)
unfolding emit_reject
emit_reject-Emits value name g s p =
    let (ss, v, g') = emit_message value name g in
    use_value ss v g' (reject v ∷ return true ∷ []) s (emit_message-EmitsValue value name g s p)
      (λ s' known below. ((known, tt, (tt, tt, tt)), below))

-- Of an action: its statements.
abbrev pub EmitsAction : List ℕ → Bool × List Stmt × CppEmitter → Type 0
EmitsAction s (b, ss, g) = Emits s (ss, g)

pub emit_header_action-EmitsAction :
    (hr : HeaderRule) (idx : ℕ) (hv : Option Expr) (g : CppEmitter) (s : List ℕ)
    → Below g.temp_ s
    → KnownValue s hv
    → EmitsAction s (emit_header_action hr idx hv g)
unfolding emit_header_action
emit_header_action-EmitsAction hr idx hv g s p known =
    elim hr.action
      as (λ a. EmitsAction s (emit_header_action (record hr { action = a }) idx hv g)) [
        | HeaderAction.add ↦ emit_add-Emits hr g s p
        | HeaderAction.replace ↦ emit_replace-Emits hr g s p
        | HeaderAction.manipulate ↦ emit_replace-Emits hr g s p
        | HeaderAction.delete ↦ ((tt, tt, tt), p)
        | HeaderAction.delete_header ↦ ((tt, tt, tt), p)
        | HeaderAction.store ↦ emit_store-Emits hr idx hv g s p known
        | HeaderAction.log ↦ emit_log-Emits hr g s p
        | HeaderAction.reject ↦ emit_reject-Emits hr.new_value hr.name g s p
        | _ ↦ (tt, p)
      ]
