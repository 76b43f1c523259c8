-- ===== src/Parser/Expected/Headers.antt =====
-- What a header rule is to be, read off its block (src/parser/parser.cpp).
use olproff_fastsbc_hmr.Base.{Bool, true, Option, none, some, List, [], ◌∷◌, ◌++◌}
use olproff_fastsbc_hmr.Text.{Bytes, codes}
use olproff_fastsbc_hmr.Value.{Value}
use olproff_fastsbc_hmr.Ast.{HeaderAction, ComparisonType, MsgType, ElementRule, HeaderRule}
use olproff_fastsbc_hmr.Ast.Factory
use olproff_fastsbc_hmr.Diagnostics.{SourceLocation}
use olproff_fastsbc_hmr.Parser.{HeaderRuleItem, HeaderRuleContext, AttrValue, Collected}
use olproff_fastsbc_hmr.Parser.Keys.{HeaderKey, header_key}
use olproff_fastsbc_hmr.Parser.Attributes.{key_of, key_loc, value_of, warning_of, ignoring}
use olproff_fastsbc_hmr.Parser.Build.{new_header_rule}
use olproff_fastsbc_hmr.Parser.Expected.{
  all, last_given, or_else, nothing, say, enumerator, misread, match_text, new_text, warned,
  readable,
}
use olproff_fastsbc_hmr.Parser.Expected.Elements.{element_of, element_reads, element_diagnostics}

abbrev pub header_name : HeaderKey → AttrValue → Option Bytes
header_name HeaderKey.name v = some v.raw
header_name _ v = none

abbrev pub header_header_name : HeaderKey → AttrValue → Option Bytes
header_header_name HeaderKey.header_name v = some v.raw
header_header_name _ v = none

abbrev pub header_action : HeaderKey → AttrValue → Option HeaderAction
header_action HeaderKey.action v = enumerator (Factory.header_action v.raw) v
header_action _ v = none

abbrev pub header_comparison : HeaderKey → AttrValue → Option ComparisonType
header_comparison HeaderKey.comparison_type v = enumerator (Factory.comparison v.raw) v
header_comparison _ v = none

abbrev pub header_msg_type : HeaderKey → AttrValue → Option MsgType
header_msg_type HeaderKey.msg_type v = enumerator (Factory.msg_type v.raw) v
header_msg_type _ v = none

abbrev pub header_methods : HeaderKey → AttrValue → Option (List Bytes)
header_methods HeaderKey.methods v = some (Factory.parse_methods v.raw)
header_methods _ v = none

abbrev pub header_match_value : HeaderKey → AttrValue → Option Value
header_match_value HeaderKey.match_value v = match_text v
header_match_value _ v = none

abbrev pub header_new_value : HeaderKey → AttrValue → Option Value
header_new_value HeaderKey.new_value v = new_text v
header_new_value _ v = none

-- A match-value or a new-value is to be read.
abbrev pub header_fits : HeaderKey → AttrValue → Bool
header_fits HeaderKey.match_value v = readable (match_text v)
header_fits HeaderKey.new_value v = readable (new_text v)
header_fits _ v = true

abbrev pub header_said : HeaderKey → Bytes → SourceLocation → AttrValue → Collected
header_said HeaderKey.action key loc v =
    misread (codes "header action") (Factory.header_action v.raw) v
header_said HeaderKey.comparison_type key loc v =
    misread (codes "comparison-type") (Factory.comparison v.raw) v
header_said HeaderKey.msg_type key loc v = misread (codes "msg-type") (Factory.msg_type v.raw) v
header_said HeaderKey.unknown key loc v =
    warned (warning_of (ignoring (codes "header-rule") key) loc)
header_said _ key loc v = nothing

abbrev pub header_give :
    {A : Type 0} → (HeaderKey → AttrValue → Option A) → HeaderRuleItem → Option A
header_give give (HeaderRuleItem.attribute a) = give (header_key (key_of a)) (value_of a)
header_give give _ = none

abbrev pub elements_of : List HeaderRuleItem → List ElementRule
elements_of [] = []
elements_of (HeaderRuleItem.element_rule e ∷ items) = element_of e ∷ elements_of items
elements_of (_ ∷ items) = elements_of items

abbrev pub header_item_fits : HeaderRuleItem → Bool
header_item_fits (HeaderRuleItem.element_rule e) = element_reads e
header_item_fits (HeaderRuleItem.attribute a) = header_fits (header_key (key_of a)) (value_of a)
header_item_fits HeaderRuleItem.newline = true

abbrev pub header_item_said : HeaderRuleItem → Collected
header_item_said (HeaderRuleItem.element_rule e) = element_diagnostics e
header_item_said (HeaderRuleItem.attribute a) =
    header_said (header_key (key_of a)) (key_of a) (key_loc a) (value_of a)
header_item_said HeaderRuleItem.newline = nothing

-- The last item of the list that gives a field sets it; element rules are appended in order.
unfoldable pub set_header : HeaderRule → List HeaderRuleItem → HeaderRule
unfolding last_given
set_header hr items = record {
  name = or_else (last_given (header_give header_name) items) hr.name;
  header_name = or_else (last_given (header_give header_header_name) items) hr.header_name;
  action = or_else (last_given (header_give header_action) items) hr.action;
  comparison = or_else (last_given (header_give header_comparison) items) hr.comparison;
  msg_type = or_else (last_given (header_give header_msg_type) items) hr.msg_type;
  methods = or_else (last_given (header_give header_methods) items) hr.methods;
  match_value = or_else (last_given (header_give header_match_value) items) hr.match_value;
  new_value = or_else (last_given (header_give header_new_value) items) hr.new_value;
  element_rules = hr.element_rules ++ elements_of items;
  loc = hr.loc;
}

unfoldable pub header_of : HeaderRuleContext → HeaderRule
unfolding set_header new_header_rule
header_of ctx = set_header (new_header_rule ctx) ctx.items

unfoldable pub header_reads : HeaderRuleContext → Bool
header_reads ctx = all header_item_fits ctx.items

unfoldable pub header_diagnostics : HeaderRuleContext → Collected
unfolding say
header_diagnostics ctx = say header_item_said ctx.items
