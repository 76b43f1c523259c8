-- ===== src/Ir/Rules.antt =====
-- emit_header_action, emit_element_rules, emit_header_rule and emit of src/codegen/ir_generator.cpp.
use olproff_fastsbc_hmr.Base.{
  ℕ, zero, suc, ◌+◌, Bool, true, false, not, ◌&&◌, Option, none, some, List, [], ◌∷◌, ◌++◌, ◌==◌,
  if◌then◌else◌, length,
}
use olproff_fastsbc_hmr.Text.{Bytes, codes}
use olproff_fastsbc_hmr.Uri.{HmrUriElement}
use olproff_fastsbc_hmr.Value.{Value, empty}
use olproff_fastsbc_hmr.Ast.{HeaderAction, ElementAction, ElementRule, HeaderRule}
use olproff_fastsbc_hmr.Lowering.{
  uri_element, is_pattern, count_capturing_groups, capture_slot_key, to_string,
}
use olproff_fastsbc_hmr.Interp.Rules.{is_whole}
use olproff_fastsbc_hmr.Ir.{
  IrStr, literal, get_header, get_capture, uri_get, uri_set, set_header, add_header, delete_header,
  store, log, reject, Op, call, br, set_insert_point, Emitter, str_call, new_block, br_reject,
  slot_for,
}
use olproff_fastsbc_hmr.Ir.Emit.{emit_value, emit_match_guard, pattern_of}

-- `empty ? literal(name) : emit_value(value)`
unfoldable pub emit_message : Value → Bytes → Emitter → List Op × IrStr × Emitter
unfolding emit_value
emit_message v name g = if empty v then ([], literal name, g) else emit_value v g

-- The loop over the groups from `group` on, `left` of them.
unfoldable pub emit_groups : ℕ → ℕ → Bytes → Emitter → List Op × Emitter
unfolding str_call slot_for capture_slot_key
emit_groups zero group rule g = ([], g)
emit_groups (suc left) group rule g =
    let (slot, g1) = slot_for (capture_slot_key rule group) g in
    let (os, cap, g2) = str_call (get_capture group) g1 in
    let (rest, g3) = emit_groups left (group + 1) rule g2 in
    (os ++ call (store slot cap) ∷ rest, g3)

unfoldable pub emit_plain_store : Bytes → Bytes → Option IrStr → Emitter → List Op × Emitter
unfolding str_call slot_for
emit_plain_store rule name (some hv) g =
    let (slot, g') = slot_for rule g in (call (store slot hv) ∷ [], g')
emit_plain_store rule name none g =
    let (slot, g1) = slot_for rule g in
    let (os, hv, g2) = str_call (get_header (literal name)) g1 in
    (os ++ call (store slot hv) ∷ [], g2)

unfoldable pub emit_store : HeaderRule → ℕ → Option IrStr → Emitter → List Op × Emitter
unfolding is_pattern pattern_of count_capturing_groups emit_groups emit_plain_store to_string
emit_store hr idx hv g =
    let rule = if length hr.name == 0 then codes "rule" ++ to_string idx else hr.name in
    if is_pattern hr.comparison
    then emit_groups (count_capturing_groups (pattern_of hr.match_value) + 1) 0 rule g
    else emit_plain_store rule hr.header_name hv g

unfoldable pub emit_replace : HeaderRule → Emitter → List Op × Emitter
unfolding emit_value
emit_replace hr g =
    let (os, v, g') = emit_value hr.new_value g in
    if not (empty hr.new_value) && length hr.element_rules == 0
    then (os ++ call (set_header (literal hr.header_name) v) ∷ [], g')
    else ([], g)

unfoldable pub emit_add : HeaderRule → Emitter → List Op × Emitter
unfolding emit_value
emit_add hr g =
    let (os, v, g') = emit_value hr.new_value g in
    (os ++ call (add_header (literal hr.header_name) v) ∷ [], g')

unfoldable pub emit_log : HeaderRule → Emitter → List Op × Emitter
unfolding emit_message
emit_log hr g =
    let (os, v, g') = emit_message hr.new_value hr.name g in (os ++ call (log v) ∷ [], g')

unfoldable pub emit_reject : Value → Bytes → Emitter → List Op × Emitter
unfolding emit_message br_reject
emit_reject value name g =
    let (os, v, g1) = emit_message value name g in
    let (bs, g2) = br_reject g1 in (os ++ call (reject 403 v) ∷ bs, g2)

abbrev going : List Op × Emitter → Bool × List Op × Emitter
going (os, g) = (false, os, g)

abbrev ending : List Op × Emitter → Bool × List Op × Emitter
ending (os, g) = (true, os, g)

-- Whether the action terminated the block, and its operations; `hv` is `none` without `have_hv`.
unfoldable pub emit_header_action :
    HeaderRule → ℕ → Option IrStr → Emitter → Bool × List Op × Emitter
unfolding emit_add emit_replace emit_store emit_log emit_reject
emit_header_action hr idx hv g = elim hr.action [
  | HeaderAction.add ↦ going (emit_add hr g)
  | HeaderAction.replace ↦ going (emit_replace hr g)
  | HeaderAction.manipulate ↦ going (emit_replace hr g)
  | HeaderAction.delete ↦ (false, call (delete_header (literal hr.header_name)) ∷ [], g)
  | HeaderAction.delete_header ↦ (false, call (delete_header (literal hr.header_name)) ∷ [], g)
  | HeaderAction.store ↦ going (emit_store hr idx hv g)
  | HeaderAction.log ↦ going (emit_log hr g)
  | HeaderAction.reject ↦ ending (emit_reject hr.new_value hr.name g)
  | _ ↦ (false, [], g)
]

-- Writes `nv` to the element of the header value.
unfoldable pub emit_set_element :
    IrStr → IrStr → HmrUriElement → IrStr → Emitter → List Op × Emitter
unfolding str_call
emit_set_element name hv e nv g =
    let (os, ns, g') = str_call (uri_set hv e nv) g in
    if is_whole e
    then (call (set_header name nv) ∷ [], g)
    else (os ++ call (set_header name ns) ∷ [], g')

unfoldable pub emit_element_replace :
    IrStr → IrStr → HmrUriElement → ElementRule → Emitter → List Op × Emitter
unfolding emit_value emit_set_element
emit_element_replace name hv e er g =
    let (os, nv, g1) = emit_value er.new_value g in
    let (rest, g2) = emit_set_element name hv e nv g1 in (os ++ rest, g2)

unfoldable pub emit_element_delete : IrStr → IrStr → HmrUriElement → Emitter → List Op × Emitter
unfolding emit_set_element
emit_element_delete name hv e g =
    if is_whole e
    then (call (delete_header name) ∷ [], g)
    else emit_set_element name hv e (literal []) g

-- The switch on the action, and the branch to `cont` of an action that does not reject.
unfoldable pub emit_element_action :
    HeaderRule → ElementRule → HmrUriElement → IrStr → IrStr → ℕ → Emitter → List Op × Emitter
unfolding emit_element_replace emit_element_delete slot_for emit_reject
emit_element_action hr er e hv ev cont g =
    let name = literal hr.header_name in
    let key = if length er.name == 0 then hr.name ++ codes ".el" else er.name in
    let (slot, g1) = slot_for key g in
    let (rs, g2) = emit_element_replace name hv e er g in
    let (ds, g3) = emit_element_delete name hv e g in
    elim er.action [
      | ElementAction.replace ↦ (rs ++ br cont ∷ [], g2)
      | ElementAction.delete_element ↦ (ds ++ br cont ∷ [], g3)
      | ElementAction.store ↦ (call (store slot ev) ∷ br cont ∷ [], g1)
      | ElementAction.reject ↦ emit_reject er.new_value er.name g
      | _ ↦ (br cont ∷ [], g)
    ]

unfoldable pub emit_element_value : IrStr → HmrUriElement → Emitter → List Op × IrStr × Emitter
unfolding str_call
emit_element_value hv e g = if is_whole e then ([], hv, g) else str_call (uri_get hv e) g

-- A round of the loop over the element rules.
unfoldable pub emit_element_rule :
    HeaderRule → ElementRule → HmrUriElement → Emitter → List Op × Emitter
unfolding new_block str_call emit_element_value emit_match_guard emit_element_action
emit_element_rule hr er e g =
    let (bs, cont, g1) = new_block (codes "el.cont") g in
    let (hs, hv, g2) = str_call (get_header (literal hr.header_name)) g1 in
    let (vs, ev, g3) = emit_element_value hv e g2 in
    let (gs, g4) = emit_match_guard er.comparison er.match_val_type er.match_value ev cont g3 in
    let (acts, g5) = emit_element_action hr er e hv ev cont g4 in
    (bs ++ (hs ++ (vs ++ (gs ++ (acts ++ set_insert_point cont ∷ [])))), g5)

unfoldable pub emit_element_rules : HeaderRule → List ElementRule → Emitter → List Op × Emitter
unfolding uri_element emit_element_rule
emit_element_rules hr [] g = ([], g)
emit_element_rules hr (er ∷ ers) g = elim (uri_element er.type) [
  | none ↦ emit_element_rules hr ers g
  | some e ↦
      let (os, g1) = emit_element_rule hr er e g in
      let (rest, g2) = emit_element_rules hr ers g1 in (os ++ rest, g2)
]
