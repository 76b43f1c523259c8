-- ===== src/Ast/Factory.antt =====
-- src/ast/ast_factory.cpp: the keywords and the enumerators that they stand for.
use olproff_fastsbc_hmr.Base.{
  ℕ, ◌+◌, ◌-◌, Bool, true, false, ◌&&◌, ◌||◌, Option, none, some, List, [], ◌∷◌, ◌++◌, leb, ◌==◌,
  if◌then◌else◌, length, map,
}
use olproff_fastsbc_hmr.Text.{Bytes, codes, same_text, to_lower}
use olproff_fastsbc_hmr.Ast.{
  HeaderAction, ElementAction, ElementType, ComparisonType, MatchValType, MsgType,
}

unfoldable pub lower : Bytes → Bytes
unfolding to_lower
lower s = map to_lower s

-- The loop of `lookup` over a table, on the lowered key.
unfoldable pub find_key : {E : Type 0} → List (Bytes × E) → Bytes → Option E
unfolding same_text
find_key [] key = none
find_key ((name, value) ∷ table) key = if same_text name key then some value else find_key table key

unfoldable pub lookup : {E : Type 0} → List (Bytes × E) → Bytes → Option E
unfolding lower find_key
lookup table s = find_key table (lower s)

abbrev pub header_action_table : List (Bytes × HeaderAction)
header_action_table =
    (codes "none", HeaderAction.none)
    ∷ (codes "add", HeaderAction.add)
    ∷ (codes "store", HeaderAction.store)
    ∷ (codes "manipulate", HeaderAction.manipulate)
    ∷ (codes "replace", HeaderAction.replace)
    ∷ (codes "find-replace-all", HeaderAction.find_replace_all)
    ∷ (codes "delete", HeaderAction.delete)
    ∷ (codes "delete-element", HeaderAction.delete_element)
    ∷ (codes "delete-header", HeaderAction.delete_header)
    ∷ (codes "sip-manip", HeaderAction.sip_manip)
    ∷ (codes "log", HeaderAction.log)
    ∷ (codes "reject", HeaderAction.reject)
    ∷ []

unfoldable pub header_action : Bytes → Option HeaderAction
unfolding lookup
header_action s = lookup header_action_table s

abbrev pub element_action_table : List (Bytes × ElementAction)
element_action_table =
    (codes "none", ElementAction.none)
    ∷ (codes "add", ElementAction.add)
    ∷ (codes "store", ElementAction.store)
    ∷ (codes "replace", ElementAction.replace)
    ∷ (codes "delete-element", ElementAction.delete_element)
    ∷ (codes "delete-header", ElementAction.delete_header)
    ∷ (codes "find-replace-all", ElementAction.find_replace_all)
    ∷ (codes "sip-manip", ElementAction.sip_manip)
    ∷ (codes "log", ElementAction.log)
    ∷ (codes "reject", ElementAction.reject)
    ∷ []

unfoldable pub element_action : Bytes → Option ElementAction
unfolding lookup
element_action s = lookup element_action_table s

abbrev pub element_type_table : List (Bytes × ElementType)
element_type_table =
    (codes "header-value", ElementType.header_value)
    ∷ (codes "header-param-name", ElementType.header_param_name)
    ∷ (codes "header-param", ElementType.header_param)
    ∷ (codes "uri-display", ElementType.uri_display)
    ∷ (codes "uri-user", ElementType.uri_user)
    ∷ (codes "uri-user-param", ElementType.uri_user_param)
    ∷ (codes "uri-host", ElementType.uri_host)
    ∷ (codes "uri-port", ElementType.uri_port)
    ∷ (codes "uri-param-name", ElementType.uri_param_name)
    ∷ (codes "uri-param", ElementType.uri_param)
    ∷ (codes "uri-header-name", ElementType.uri_header_name)
    ∷ (codes "uri-header", ElementType.uri_header)
    ∷ (codes "status-code", ElementType.status_code)
    ∷ (codes "reason-phrase", ElementType.reason_phrase)
    ∷ (codes "uri-user-only", ElementType.uri_user_only)
    ∷ (codes "uri-phone-number-only", ElementType.uri_phone_number_only)
    ∷ []

unfoldable pub element_type : Bytes → Option ElementType
unfolding lookup
element_type s = lookup element_type_table s

abbrev pub comparison_table : List (Bytes × ComparisonType)
comparison_table =
    (codes "case-sensitive", ComparisonType.case_sensitive)
    ∷ (codes "case-insensitive", ComparisonType.case_insensitive)
    ∷ (codes "pattern-rule", ComparisonType.pattern_rule)
    ∷ (codes "boolean", ComparisonType.boolean)
    ∷ (codes "refer-case-sensitive", ComparisonType.refer_case_sensitive)
    ∷ (codes "refer-case-insensitive", ComparisonType.refer_case_insensitive)
    ∷ []

unfoldable pub comparison : Bytes → Option ComparisonType
unfolding lookup
comparison s = lookup comparison_table s

abbrev pub match_val_type_table : List (Bytes × MatchValType)
match_val_type_table =
    (codes "any", MatchValType.any)
    ∷ (codes "an", MatchValType.any)
    ∷ (codes "ip", MatchValType.ip)
    ∷ (codes "fqdn", MatchValType.fqdn)
    ∷ []

unfoldable pub match_val_type : Bytes → Option MatchValType
unfolding lookup
match_val_type s = lookup match_val_type_table s

abbrev pub msg_type_table : List (Bytes × MsgType)
msg_type_table =
    (codes "any", MsgType.any)
    ∷ (codes "request", MsgType.request)
    ∷ (codes "reply", MsgType.reply)
    ∷ (codes "out-of-dialog", MsgType.out_of_dialog)
    ∷ []

unfoldable pub msg_type : Bytes → Option MsgType
unfolding lookup
msg_type s = lookup msg_type_table s

unfoldable pub is_block_keyword : Bytes → Bool
unfolding lower same_text
is_block_keyword s =
    let k = lower s in
    same_text k (codes "sip-manipulation")
    || same_text k (codes "header-rule")
    || same_text k (codes "header-rules")
    || same_text k (codes "element-rule")
    || same_text k (codes "element-rules")

unfoldable pub to_upper : ℕ → ℕ
to_upper c = if leb b'a' c && leb c b'z' then c - b'a' + b'A' else c

unfoldable pub flush_method : Bytes → List Bytes → List Bytes
unfolding to_upper
flush_method cur out = if length cur == 0 then out else out ++ map to_upper cur ∷ []

unfoldable pub methods_loop : Bytes → List Bytes → Bytes → List Bytes
unfolding flush_method
methods_loop cur out [] = flush_method cur out
methods_loop cur out (c ∷ s) = elim (c == b',' || c == b' ' || c == b'\t') [
  | true ↦ methods_loop [] (flush_method cur out) s
  | false ↦ methods_loop (cur ++ c ∷ []) out s
]

unfoldable pub parse_methods : Bytes → List Bytes
unfolding methods_loop
parse_methods s = methods_loop [] [] s
