-- ===== src/Ast/Keywords.antt =====
-- The keyword tables of src/ast/ast_factory.cpp and its to_string functions.
use olproff_fastsbc_hmr.Base.{Option, some, none, ◌≡◌, refl}
use olproff_fastsbc_hmr.Ast.{
  HeaderAction, ElementAction, ElementType, ComparisonType, MatchValType, MsgType,
}
use olproff_fastsbc_hmr.Ast.Names.{
  header_action_name, element_action_name, element_type_name, comparison_name, match_val_type_name,
  msg_type_name,
}
use olproff_fastsbc_hmr.Ast.Factory.{
  header_action, element_action, element_type, comparison, match_val_type, msg_type,
}

header_action-name : (x : HeaderAction) → header_action (header_action_name x) ≡ some x
unfolding header_action header_action_name
header_action-name HeaderAction.none = refl
header_action-name HeaderAction.add = refl
header_action-name HeaderAction.store = refl
header_action-name HeaderAction.manipulate = refl
header_action-name HeaderAction.replace = refl
header_action-name HeaderAction.find_replace_all = refl
header_action-name HeaderAction.delete = refl
header_action-name HeaderAction.delete_element = refl
header_action-name HeaderAction.delete_header = refl
header_action-name HeaderAction.sip_manip = refl
header_action-name HeaderAction.log = refl
header_action-name HeaderAction.reject = refl

element_action-name : (x : ElementAction) → element_action (element_action_name x) ≡ some x
unfolding element_action element_action_name
element_action-name ElementAction.none = refl
element_action-name ElementAction.add = refl
element_action-name ElementAction.store = refl
element_action-name ElementAction.replace = refl
element_action-name ElementAction.delete_element = refl
element_action-name ElementAction.delete_header = refl
element_action-name ElementAction.find_replace_all = refl
element_action-name ElementAction.sip_manip = refl
element_action-name ElementAction.log = refl
element_action-name ElementAction.reject = refl

-- What element_type reads back: `none` is the only enumerator without a keyword.
abbrev pub readable : ElementType → Option ElementType
readable ElementType.none = none
readable x = some x

element_type-name : (x : ElementType) → element_type (element_type_name x) ≡ readable x
unfolding element_type element_type_name
element_type-name ElementType.none = refl
element_type-name ElementType.header_value = refl
element_type-name ElementType.header_param_name = refl
element_type-name ElementType.header_param = refl
element_type-name ElementType.uri_display = refl
element_type-name ElementType.uri_user = refl
element_type-name ElementType.uri_user_param = refl
element_type-name ElementType.uri_host = refl
element_type-name ElementType.uri_port = refl
element_type-name ElementType.uri_param_name = refl
element_type-name ElementType.uri_param = refl
element_type-name ElementType.uri_header_name = refl
element_type-name ElementType.uri_header = refl
element_type-name ElementType.status_code = refl
element_type-name ElementType.reason_phrase = refl
element_type-name ElementType.uri_user_only = refl
element_type-name ElementType.uri_phone_number_only = refl

comparison-name : (x : ComparisonType) → comparison (comparison_name x) ≡ some x
unfolding comparison comparison_name
comparison-name ComparisonType.case_sensitive = refl
comparison-name ComparisonType.case_insensitive = refl
comparison-name ComparisonType.pattern_rule = refl
comparison-name ComparisonType.boolean = refl
comparison-name ComparisonType.refer_case_sensitive = refl
comparison-name ComparisonType.refer_case_insensitive = refl

match_val_type-name : (x : MatchValType) → match_val_type (match_val_type_name x) ≡ some x
unfolding match_val_type match_val_type_name
match_val_type-name MatchValType.any = refl
match_val_type-name MatchValType.ip = refl
match_val_type-name MatchValType.fqdn = refl

msg_type-name : (x : MsgType) → msg_type (msg_type_name x) ≡ some x
unfolding msg_type msg_type_name
msg_type-name MsgType.any = refl
msg_type-name MsgType.request = refl
msg_type-name MsgType.reply = refl
msg_type-name MsgType.out_of_dialog = refl

-- The keyword that to_string gives for an enumerator is read back as that enumerator, by every table;
-- ElementType::None is the one exception: its word is not a keyword of element_type.
pub keywords-read_back :
    ((x : HeaderAction) → header_action (header_action_name x) ≡ some x)
    × ((x : ElementAction) → element_action (element_action_name x) ≡ some x)
    × ((x : ElementType) → element_type (element_type_name x) ≡ readable x)
    × ((x : ComparisonType) → comparison (comparison_name x) ≡ some x)
    × ((x : MatchValType) → match_val_type (match_val_type_name x) ≡ some x)
    × ((x : MsgType) → msg_type (msg_type_name x) ≡ some x)
keywords-read_back = (
  header_action-name, element_action-name, element_type-name, comparison-name, match_val_type-name,
  msg_type-name,
)
