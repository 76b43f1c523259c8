-- ===== src/Codegen/Rules.antt =====
-- emit_header_action, emit_element_rules and emit_header_rule of src/codegen/cpp_generator.cpp.
use olproff_fastsbc_hmr.Base.{
  ℕ, zero, suc, ◌+◌, Bool, true, false, not, ◌&&◌, ◌||◌, Option, none, some, List, [], ◌∷◌, ◌++◌,
  ◌==◌, if◌then◌else◌, length, map,
}
use olproff_fastsbc_hmr.Text.{Bytes, codes}
use olproff_fastsbc_hmr.Uri.{HmrUriElement}
use olproff_fastsbc_hmr.Value.{Value, empty}
use olproff_fastsbc_hmr.Ast.{
  HeaderAction, ElementAction, MatchValType, MsgType, ElementRule, HeaderRule, Ruleset,
}
use olproff_fastsbc_hmr.Lowering.{
  uri_element, is_pattern, count_capturing_groups, capture_slot_key, to_string,
}
use olproff_fastsbc_hmr.Interp.Rules.{is_whole}
use olproff_fastsbc_hmr.Interp.Walk.{is_store}
use olproff_fastsbc_hmr.Codegen.{
  Expr, temp, str_lit, Stmt, bind, get_capture, get_header, get_method, uri_get, uri_set,
  add_header, set_header, delete_header, store, log, reject, type_guard, method_guard, return, Item,
  plain, element, RuleBlock, CppEmitter, next_temp, slot_for,
}
use olproff_fastsbc_hmr.Codegen.Emit.{emit_value, emit_match_guard, pattern_of}

-- `empty ? str_lit(name) : emit_value(value)`
unfoldable pub emit_message : Value → Bytes → CppEmitter → List Stmt × Expr × CppEmitter
unfolding emit_value
emit_message v name g = if empty v then ([], str_lit name, g) else emit_value v g

-- The loop over the groups from `group` on, `left` of them.
unfoldable pub emit_groups : ℕ → ℕ → Bytes → CppEmitter → List Stmt × CppEmitter
unfolding next_temp slot_for capture_slot_key
emit_groups zero group rule g = ([], g)
emit_groups (suc left) group rule g =
    let (cap, g1) = next_temp g in
    let (slot, g2) = slot_for (capture_slot_key rule group) g1 in
    let (rest, g3) = emit_groups left (group + 1) rule g2 in
    (get_capture cap group ∷ store slot (temp cap) ∷ rest, g3)

-- The store of a rule with no pattern: of the header value, fetched already or now.
unfoldable pub emit_plain_store : Bytes → Bytes → Option Expr → CppEmitter → List Stmt × CppEmitter
unfolding next_temp slot_for
emit_plain_store rule name (some hv) g =
    let (slot, g') = slot_for rule g in (store slot hv ∷ [], g')
emit_plain_store rule name none g =
    let (gh, g1) = next_temp g in
    let (slot, g2) = slot_for rule g1 in
    (get_header gh (str_lit name) ∷ store slot (temp gh) ∷ [], g2)

unfoldable pub emit_store : HeaderRule → ℕ → Option Expr → CppEmitter → List Stmt × CppEmitter
unfolding is_pattern pattern_of count_capturing_groups emit_groups emit_plain_store to_string
emit_store hr idx hv g =
    let rule = if length hr.name == 0 then codes "rule" ++ to_string idx else hr.name in
    if is_pattern hr.comparison
    then emit_groups (count_capturing_groups (pattern_of hr.match_value) + 1) 0 rule g
    else emit_plain_store rule hr.header_name hv g

unfoldable pub emit_replace : HeaderRule → CppEmitter → List Stmt × CppEmitter
unfolding emit_value
emit_replace hr g =
    let (ss, v, g') = emit_value hr.new_value g in
    if not (empty hr.new_value) && length hr.element_rules == 0
    then (ss ++ set_header (str_lit hr.header_name) v ∷ [], g')
    else ([], g)

unfoldable pub emit_add : HeaderRule → CppEmitter → List Stmt × CppEmitter
unfolding emit_value
emit_add hr g =
    let (ss, v, g') = emit_value hr.new_value g in
    (ss ++ add_header (str_lit hr.header_name) v ∷ [], g')

unfoldable pub emit_log : HeaderRule → CppEmitter → List Stmt × CppEmitter
unfolding emit_message
emit_log hr g = let (ss, v, g') = emit_message hr.new_value hr.name g in (ss ++ log v ∷ [], g')

unfoldable pub emit_reject : Value → Bytes → CppEmitter → List Stmt × CppEmitter
unfolding emit_message
emit_reject value name g =
    let (ss, v, g') = emit_message value name g in (ss ++ reject v ∷ return true ∷ [], g')

abbrev going : List Stmt × CppEmitter → Bool × List Stmt × CppEmitter
going (ss, g) = (false, ss, g)

abbrev ending : List Stmt × CppEmitter → Bool × List Stmt × CppEmitter
ending (ss, g) = (true, ss, g)

-- Whether the action ended the rule, and its statements. `hv` is the temporary of the header value,
-- where it was fetched.
unfoldable pub emit_header_action :
    HeaderRule → ℕ → Option Expr → CppEmitter → Bool × List Stmt × CppEmitter
unfolding emit_add emit_replace emit_store emit_log emit_reject
emit_header_action hr idx hv g = elim hr.action [
  | HeaderAction.add ↦ going (emit_add hr g)
  | HeaderAction.replace ↦ going (emit_replace hr g)
  | HeaderAction.manipulate ↦ going (emit_replace hr g)
  | HeaderAction.delete ↦ (false, delete_header (str_lit hr.header_name) ∷ [], g)
  | HeaderAction.delete_header ↦ (false, delete_header (str_lit hr.header_name) ∷ [], g)
  | HeaderAction.store ↦ going (emit_store hr idx hv g)
  | HeaderAction.log ↦ going (emit_log hr g)
  | HeaderAction.reject ↦ ending (emit_reject hr.new_value hr.name g)
  | _ ↦ (false, [], g)
]

-- Writes `nv` to the element `e` of the header value `hv`, and stores the header `nm`.
unfoldable pub emit_set_element :
    Expr → Expr → HmrUriElement → Expr → CppEmitter → List Stmt × CppEmitter
unfolding next_temp
emit_set_element nm hv e nv g =
    let (ns, g') = next_temp g in
    if is_whole e
    then (set_header nm nv ∷ [], g)
    else (uri_set ns hv e nv ∷ set_header nm (temp ns) ∷ [], g')

unfoldable pub emit_element_replace :
    Expr → Expr → HmrUriElement → ElementRule → CppEmitter → List Stmt × CppEmitter
unfolding emit_value emit_set_element
emit_element_replace nm hv e er g =
    let (ss, nv, g1) = emit_value er.new_value g in
    let (rest, g2) = emit_set_element nm hv e nv g1 in (ss ++ rest, g2)

unfoldable pub emit_element_delete :
    Expr → Expr → HmrUriElement → CppEmitter → List Stmt × CppEmitter
unfolding emit_set_element
emit_element_delete nm hv e g =
    if is_whole e then (delete_header nm ∷ [], g) else emit_set_element nm hv e (str_lit []) g

-- The switch on the action, with the `return false` of an action that does not reject.
unfoldable pub emit_element_action :
    HeaderRule
    → ElementRule
    → HmrUriElement
    → Expr
    → Expr
    → Expr
    → CppEmitter
    → List Stmt × CppEmitter
unfolding emit_element_replace emit_element_delete slot_for emit_reject
emit_element_action hr er e nm hv ev g =
    let key = if length er.name == 0 then hr.name ++ codes ".el" else er.name in
    let (slot, g1) = slot_for key g in
    let (rs, g2) = emit_element_replace nm hv e er g in
    let (ds, g3) = emit_element_delete nm hv e g in
    elim er.action [
      | ElementAction.replace ↦ (rs ++ return false ∷ [], g2)
      | ElementAction.delete_element ↦ (ds ++ return false ∷ [], g3)
      | ElementAction.store ↦ (store slot ev ∷ return false ∷ [], g1)
      | ElementAction.reject ↦ emit_reject er.new_value er.name g
      | _ ↦ (return false ∷ [], g)
    ]

abbrev pub titled : Bytes → Bytes → Bytes
titled title name = if length name == 0 then title else title ++ (b' ' ∷ name)

-- The view of the element: the header value itself, or a part of it.
unfoldable pub emit_element_value :
    Expr → HmrUriElement → CppEmitter → List Stmt × Expr × CppEmitter
unfolding next_temp
emit_element_value hv e g =
    let (ev, g') = next_temp g in
    if is_whole e then ([], hv, g) else (uri_get ev hv e ∷ [], temp ev, g')

-- The lambda of an element rule.
unfoldable pub emit_element_rule :
    HeaderRule → Expr → ElementRule → HmrUriElement → CppEmitter → List Stmt × CppEmitter
unfolding next_temp emit_element_value emit_match_guard emit_element_action
emit_element_rule hr nm er e g =
    let (hv, g1) = next_temp g in
    let (vs, ev, g2) = emit_element_value (temp hv) e g1 in
    let (gs, g3) = emit_match_guard er.comparison er.match_val_type er.match_value ev g2 in
    let (acts, g4) = emit_element_action hr er e nm (temp hv) ev g3 in
    (get_header hv nm ∷ (vs ++ (gs ++ acts)), g4)

-- The loop of emit_element_rules.
unfoldable pub emit_elements :
    HeaderRule → Expr → List ElementRule → CppEmitter → List Item × CppEmitter
unfolding uri_element emit_element_rule
emit_elements hr nm [] g = ([], g)
emit_elements hr nm (er ∷ ers) g = elim (uri_element er.type) [
  | none ↦ emit_elements hr nm ers g
  | some e ↦
      let (ss, g1) = emit_element_rule hr nm er e g in
      let (rest, g2) = emit_elements hr nm ers g1 in
      (element (titled (codes "element-rule") er.name) ss ∷ rest, g2)
]

unfoldable pub emit_element_rules : HeaderRule → CppEmitter → List Item × CppEmitter
unfolding next_temp emit_elements
emit_element_rules hr g =
    let (nm, g1) = next_temp g in
    let (items, g2) = emit_elements hr (temp nm) hr.element_rules g1 in
    (plain (bind nm hr.header_name) ∷ items, g2)

unfoldable pub emit_type_guard : MsgType → List Stmt
emit_type_guard MsgType.request = type_guard true ∷ []
emit_type_guard MsgType.reply = type_guard false ∷ []
emit_type_guard _ = []

unfoldable pub emit_method_guard : List Bytes → CppEmitter → List Stmt × CppEmitter
unfolding next_temp
emit_method_guard methods g =
    let (t, g') = next_temp g in
    if length methods == 0 then ([], g) else (get_method t ∷ method_guard t methods ∷ [], g')

-- The header value, where the guard or the action needs it.
unfoldable pub emit_header_value : HeaderRule → CppEmitter → List Stmt × Option Expr × CppEmitter
unfolding next_temp
emit_header_value hr g =
    let (t, g') = next_temp g in
    if not (empty hr.match_value) || is_store hr.action
    then (get_header t (str_lit hr.header_name) ∷ [], some (temp t), g')
    else ([], none, g)

unfoldable pub emit_header_guard : HeaderRule → Option Expr → CppEmitter → List Stmt × CppEmitter
unfolding emit_match_guard
emit_header_guard hr none g = ([], g)
emit_header_guard hr (some hv) g =
    emit_match_guard hr.comparison MatchValType.any hr.match_value hv g

-- The element rules behind an action that did not end the rule, and `return false`.
unfoldable pub emit_rest : HeaderRule → Bool → CppEmitter → List Item × CppEmitter
unfolding emit_element_rules
emit_rest hr terminated g =
    let (items, g') = emit_element_rules hr g in
    if terminated
    then ([], g)
    else if length hr.element_rules == 0
    then (plain (return false) ∷ [], g)
    else (items ++ plain (return false) ∷ [], g')

-- The statements of a header rule up to its action, and whether the action ended it.
unfoldable pub emit_head : HeaderRule → ℕ → CppEmitter → Bool × List Stmt × CppEmitter
unfolding emit_type_guard emit_method_guard emit_header_value emit_header_guard emit_header_action
emit_head hr idx g =
    let (ms, g1) = emit_method_guard hr.methods g in
    let (vs, hv, g2) = emit_header_value hr g1 in
    let (gs, g3) = emit_header_guard hr hv g2 in
    let (terminated, acts, g4) = emit_header_action hr idx hv g3 in
    (terminated, emit_type_guard hr.msg_type ++ (ms ++ (vs ++ (gs ++ acts))), g4)

unfoldable pub emit_header_rule : HeaderRule → ℕ → CppEmitter → RuleBlock × CppEmitter
unfolding emit_head emit_rest to_string
emit_header_rule hr idx g =
    let (terminated, ss, g1) = emit_head hr idx g in
    let (rest, g2) = emit_rest hr terminated g1 in
    let title = codes "header-rule " ++ to_string idx in
    (
      record {
        comment = if length hr.name == 0 then title else title ++ (codes ": " ++ hr.name);
        items = map plain ss ++ rest;
      },
      g2,
    )

-- The loop of `generate` from the rule `i` on.
unfoldable pub emit_rules : List HeaderRule → ℕ → CppEmitter → List RuleBlock × CppEmitter
unfolding emit_header_rule
emit_rules [] i g = ([], g)
emit_rules (hr ∷ hrs) i g =
    let (b, g1) = emit_header_rule hr i g in
    let (rest, g2) = emit_rules hrs (i + 1) g1 in (b ∷ rest, g2)

abbrev pub new_emitter : CppEmitter
new_emitter = record { temp_ = 0; regexes = []; slots = [] }

-- The body of hmr_apply, and the emitter behind it.
unfoldable pub emit : Ruleset → List RuleBlock × CppEmitter
unfolding emit_rules
emit rs = emit_rules rs.header_rules 0 new_emitter
