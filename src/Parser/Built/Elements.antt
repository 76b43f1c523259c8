-- ===== src/Parser/Built/Elements.antt =====
-- build_element_rule of src/parser/parser.cpp.
use olproff_fastsbc_hmr.Base.{List, [], ◌∷◌, ◌≡◌, refl}
use olproff_fastsbc_hmr.Text.{Bytes, codes}
use olproff_fastsbc_hmr.Value.{ValueMode}
use olproff_fastsbc_hmr.Ast.{ElementRule}
use olproff_fastsbc_hmr.Ast.Factory
use olproff_fastsbc_hmr.Diagnostics.{SourceLocation}
use olproff_fastsbc_hmr.Parser.{ElementRuleItem, ElementRuleContext, AttrValue, Collected}
use olproff_fastsbc_hmr.Parser.Keys.{ElementKey, element_key}
use olproff_fastsbc_hmr.Parser.Attributes.{
  element_attr, apply_element_attr, key_of, key_loc, value_of, warning_of, ignoring,
}
use olproff_fastsbc_hmr.Parser.Build.{element_item, build_element_rule, new_element_rule}
use olproff_fastsbc_hmr.Parser.Expected.{guarded, last_given, or_else, behind}
use olproff_fastsbc_hmr.Parser.Expected.Elements.{
  element_name, element_parameter_name, element_type, element_action, element_match_val_type,
  element_comparison, element_match_value, element_new_value, element_fits, element_said,
  element_give, element_item_fits, element_item_said, set_element, element_of, element_reads,
  element_diagnostics,
}
use olproff_fastsbc_hmr.Parser.Built.{
  last_given_cons, behind_nothing, for_each_lem, add_warning-behind, apply_enum_lem,
  apply_value_lem,
}

-- What one attribute sets.
abbrev given_element : ElementKey → AttrValue → ElementRule → ElementRule
given_element k v er = record {
  name = or_else (element_name k v) er.name;
  parameter_name = or_else (element_parameter_name k v) er.parameter_name;
  type = or_else (element_type k v) er.type;
  action = or_else (element_action k v) er.action;
  match_val_type = or_else (element_match_val_type k v) er.match_val_type;
  comparison = or_else (element_comparison k v) er.comparison;
  match_value = or_else (element_match_value k v) er.match_value;
  new_value = or_else (element_new_value k v) er.new_value;
  loc = er.loc;
}

element_attr_lem :
    (k : ElementKey) (key : Bytes) (loc : SourceLocation) (v : AttrValue) (er : ElementRule)
    (d : Collected)
    → element_attr k key loc v er d
      ≡ guarded (element_fits k v) (given_element k v er, behind d (element_said k key loc v))
unfolding element_attr
element_attr_lem ElementKey.name key loc v er d = rw (behind_nothing d) refl
element_attr_lem ElementKey.parameter_name key loc v er d = rw (behind_nothing d) refl
element_attr_lem ElementKey.type key loc v er d =
    apply_enum_lem (codes "element type") (Factory.element_type v.raw) v
      (λ t. record er { type = or_else t er.type }) d
element_attr_lem ElementKey.action key loc v er d =
    apply_enum_lem (codes "element action") (Factory.element_action v.raw) v
      (λ t. record er { action = or_else t er.action }) d
element_attr_lem ElementKey.match_val_type key loc v er d =
    apply_enum_lem (codes "match-val-type") (Factory.match_val_type v.raw) v
      (λ t. record er { match_val_type = or_else t er.match_val_type }) d
element_attr_lem ElementKey.comparison_type key loc v er d =
    apply_enum_lem (codes "comparison-type") (Factory.comparison v.raw) v
      (λ t. record er { comparison = or_else t er.comparison }) d
element_attr_lem ElementKey.match_value key loc v er d =
    apply_value_lem ValueMode.match_value v
      (λ t. record er { match_value = or_else t er.match_value }) d
element_attr_lem ElementKey.new_value key loc v er d =
    apply_value_lem ValueMode.new_value v (λ t. record er { new_value = or_else t er.new_value }) d
element_attr_lem ElementKey.unknown key loc v er d =
    rw (add_warning-behind (warning_of (ignoring (codes "element-rule") key) loc) d) refl

element_item_lem :
    (x : ElementRuleItem) (er : ElementRule) (d : Collected)
    → element_item x er d
      ≡ guarded (element_item_fits x) (set_element er (x ∷ []), behind d (element_item_said x))
unfolding element_item apply_element_attr set_element last_given
element_item_lem (ElementRuleItem.attribute a) er d =
    element_attr_lem (element_key (key_of a)) (key_of a) (key_loc a) (value_of a) er d
element_item_lem ElementRuleItem.newline er d = rw (behind_nothing d) refl

set_element_nil : (er : ElementRule) → set_element er [] ≡ er
unfolding set_element last_given
set_element_nil er = refl

set_element_again :
    (er : ElementRule) (x : ElementRuleItem) (xs : List ElementRuleItem)
    → set_element (set_element er (x ∷ [])) xs ≡ set_element er (x ∷ xs)
unfolding set_element
set_element_again er x xs =
    rw
      (
        last_given_cons (element_give element_name) x xs er.name,
        last_given_cons (element_give element_parameter_name) x xs er.parameter_name,
        last_given_cons (element_give element_type) x xs er.type,
        last_given_cons (element_give element_action) x xs er.action,
        last_given_cons (element_give element_match_val_type) x xs er.match_val_type,
        last_given_cons (element_give element_comparison) x xs er.comparison,
        last_given_cons (element_give element_match_value) x xs er.match_value,
        last_given_cons (element_give element_new_value) x xs er.new_value,
      )
      refl

pub build_element_rule_lem :
    (ctx : ElementRuleContext) (d : Collected)
    → build_element_rule ctx d
      ≡ guarded (element_reads ctx) (element_of ctx, behind d (element_diagnostics ctx))
unfolding build_element_rule element_reads element_of element_diagnostics
build_element_rule_lem ctx d =
    for_each_lem element_item element_item_fits set_element element_item_said element_item_lem
      set_element_nil set_element_again ctx.items (new_element_rule ctx) d
