-- ===== src/Ast/Names.antt =====
-- The to_string functions of src/ast/ast_factory.cpp.
use olproff_fastsbc_hmr.Text.{Bytes, codes}
use olproff_fastsbc_hmr.Ast.{
  HeaderAction, ElementAction, ElementType, ComparisonType, MatchValType, MsgType,
}

unfoldable pub header_action_name : HeaderAction → Bytes
header_action_name HeaderAction.none = codes "none"
header_action_name HeaderAction.add = codes "add"
header_action_name HeaderAction.store = codes "store"
header_action_name HeaderAction.manipulate = codes "manipulate"
header_action_name HeaderAction.replace = codes "replace"
header_action_name HeaderAction.find_replace_all = codes "find-replace-all"
header_action_name HeaderAction.delete = codes "delete"
header_action_name HeaderAction.delete_element = codes "delete-element"
header_action_name HeaderAction.delete_header = codes "delete-header"
header_action_name HeaderAction.sip_manip = codes "sip-manip"
header_action_name HeaderAction.log = codes "log"
header_action_name HeaderAction.reject = codes "reject"

unfoldable pub element_action_name : ElementAction → Bytes
element_action_name ElementAction.none = codes "none"
element_action_name ElementAction.add = codes "add"
element_action_name ElementAction.store = codes "store"
element_action_name ElementAction.replace = codes "replace"
element_action_name ElementAction.delete_element = codes "delete-element"
element_action_name ElementAction.delete_header = codes "delete-header"
element_action_name ElementAction.find_replace_all = codes "find-replace-all"
element_action_name ElementAction.sip_manip = codes "sip-manip"
element_action_name ElementAction.log = codes "log"
element_action_name ElementAction.reject = codes "reject"

unfoldable pub element_type_name : ElementType → Bytes
element_type_name ElementType.none = codes "none"
element_type_name ElementType.header_value = codes "header-value"
element_type_name ElementType.header_param_name = codes "header-param-name"
element_type_name ElementType.header_param = codes "header-param"
element_type_name ElementType.uri_display = codes "uri-display"
element_type_name ElementType.uri_user = codes "uri-user"
element_type_name ElementType.uri_user_param = codes "uri-user-param"
element_type_name ElementType.uri_host = codes "uri-host"
element_type_name ElementType.uri_port = codes "uri-port"
element_type_name ElementType.uri_param_name = codes "uri-param-name"
element_type_name ElementType.uri_param = codes "uri-param"
element_type_name ElementType.uri_header_name = codes "uri-header-name"
element_type_name ElementType.uri_header = codes "uri-header"
element_type_name ElementType.status_code = codes "status-code"
element_type_name ElementType.reason_phrase = codes "reason-phrase"
element_type_name ElementType.uri_user_only = codes "uri-user-only"
element_type_name ElementType.uri_phone_number_only = codes "uri-phone-number-only"

unfoldable pub comparison_name : ComparisonType → Bytes
comparison_name ComparisonType.case_sensitive = codes "case-sensitive"
comparison_name ComparisonType.case_insensitive = codes "case-insensitive"
comparison_name ComparisonType.pattern_rule = codes "pattern-rule"
comparison_name ComparisonType.boolean = codes "boolean"
comparison_name ComparisonType.refer_case_sensitive = codes "refer-case-sensitive"
comparison_name ComparisonType.refer_case_insensitive = codes "refer-case-insensitive"

unfoldable pub match_val_type_name : MatchValType → Bytes
match_val_type_name MatchValType.any = codes "any"
match_val_type_name MatchValType.ip = codes "ip"
match_val_type_name MatchValType.fqdn = codes "fqdn"

unfoldable pub msg_type_name : MsgType → Bytes
msg_type_name MsgType.any = codes "any"
msg_type_name MsgType.request = codes "request"
msg_type_name MsgType.reply = codes "reply"
msg_type_name MsgType.out_of_dialog = codes "out-of-dialog"
