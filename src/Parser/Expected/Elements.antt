-- ===== src/Parser/Expected/Elements.antt =====
-- What an element rule is to be, read off its block (src/parser/parser.cpp).
use olproff_fastsbc_hmr.Base.{Bool, true, Option, none, some, List}
use olproff_fastsbc_hmr.Text.{Bytes, codes}
use olproff_fastsbc_hmr.Value.{Value}
use olproff_fastsbc_hmr.Ast.{ElementAction, ElementType, ComparisonType, MatchValType, ElementRule}
use olproff_fastsbc_hmr.Ast.Factory
use olproff_fastsbc_hmr.Diagnostics.{SourceLocation}
use olproff_fastsbc_hmr.Parser.{ElementRuleItem, ElementRuleContext, AttrValue, Collected}
use olproff_fastsbc_hmr.Parser.Keys.{ElementKey, element_key}
use olproff_fastsbc_hmr.Parser.Attributes.{key_of, key_loc, value_of, warning_of, ignoring}
use olproff_fastsbc_hmr.Parser.Build.{new_element_rule}
use olproff_fastsbc_hmr.Parser.Expected.{
  all, last_given, or_else, nothing, say, enumerator, misread, match_text, new_text, warned,
  readable,
}

abbrev pub element_name : ElementKey → AttrValue → Option Bytes
element_name ElementKey.name v = some v.raw
element_name _ v = none

abbrev pub element_parameter_name : ElementKey → AttrValue → Option Bytes
element_parameter_name ElementKey.parameter_name v = some v.raw
element_parameter_name _ v = none

abbrev pub element_type : ElementKey → AttrValue → Option ElementType
element_type ElementKey.type v = enumerator (Factory.element_type v.raw) v
element_type _ v = none

abbrev pub element_action : ElementKey → AttrValue → Option ElementAction
element_action ElementKey.action v = enumerator (Factory.element_action v.raw) v
element_action _ v = none

abbrev pub element_match_val_type : ElementKey → AttrValue → Option MatchValType
element_match_val_type ElementKey.match_val_type v = enumerator (Factory.match_val_type v.raw) v
element_match_val_type _ v = none

abbrev pub element_comparison : ElementKey → AttrValue → Option ComparisonType
element_comparison ElementKey.comparison_type v = enumerator (Factory.comparison v.raw) v
element_comparison _ v = none

abbrev pub element_match_value : ElementKey → AttrValue → Option Value
element_match_value ElementKey.match_value v = match_text v
element_match_value _ v = none

abbrev pub element_new_value : ElementKey → AttrValue → Option Value
element_new_value ElementKey.new_value v = new_text v
element_new_value _ v = none

-- A match-value or a new-value is to be read.
abbrev pub element_fits : ElementKey → AttrValue → Bool
element_fits ElementKey.match_value v = readable (match_text v)
element_fits ElementKey.new_value v = readable (new_text v)
element_fits _ v = true

abbrev pub element_said : ElementKey → Bytes → SourceLocation → AttrValue → Collected
element_said ElementKey.type key loc v =
    misread (codes "element type") (Factory.element_type v.raw) v
element_said ElementKey.action key loc v =
    misread (codes "element action") (Factory.element_action v.raw) v
element_said ElementKey.match_val_type key loc v =
    misread (codes "match-val-type") (Factory.match_val_type v.raw) v
element_said ElementKey.comparison_type key loc v =
    misread (codes "comparison-type") (Factory.comparison v.raw) v
element_said ElementKey.unknown key loc v =
    warned (warning_of (ignoring (codes "element-rule") key) loc)
element_said _ key loc v = nothing

abbrev pub element_give :
    {A : Type 0} → (ElementKey → AttrValue → Option A) → ElementRuleItem → Option A
element_give give (ElementRuleItem.attribute a) = give (element_key (key_of a)) (value_of a)
element_give give ElementRuleItem.newline = none

abbrev pub element_item_fits : ElementRuleItem → Bool
element_item_fits (ElementRuleItem.attribute a) = element_fits (element_key (key_of a)) (value_of a)
element_item_fits ElementRuleItem.newline = true

abbrev pub element_item_said : ElementRuleItem → Collected
element_item_said (ElementRuleItem.attribute a) =
    element_said (element_key (key_of a)) (key_of a) (key_loc a) (value_of a)
element_item_said ElementRuleItem.newline = nothing

-- The last item of the list that gives a field sets it.
unfoldable pub set_element : ElementRule → List ElementRuleItem → ElementRule
unfolding last_given
set_element er items = record {
  name = or_else (last_given (element_give element_name) items) er.name;
  parameter_name =
      or_else (last_given (element_give element_parameter_name) items) er.parameter_name;
  type = or_else (last_given (element_give element_type) items) er.type;
  action = or_else (last_given (element_give element_action) items) er.action;
  match_val_type =
      or_else (last_given (element_give element_match_val_type) items) er.match_val_type;
  comparison = or_else (last_given (element_give element_comparison) items) er.comparison;
  match_value = or_else (last_given (element_give element_match_value) items) er.match_value;
  new_value = or_else (last_given (element_give element_new_value) items) er.new_value;
  loc = er.loc;
}

unfoldable pub element_of : ElementRuleContext → ElementRule
unfolding set_element new_element_rule
element_of ctx = set_element (new_element_rule ctx) ctx.items

unfoldable pub element_reads : ElementRuleContext → Bool
element_reads ctx = all element_item_fits ctx.items

unfoldable pub element_diagnostics : ElementRuleContext → Collected
unfolding say
element_diagnostics ctx = say element_item_said ctx.items
