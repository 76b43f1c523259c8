-- ===== src/Parser/Built/Headers.antt =====
-- build_header_rule of src/parser/parser.cpp.
use olproff_fastsbc_hmr.Base.{
  List, [], ◌∷◌, ◌++◌, ◌≡◌, refl, append-nil, append_assoc, Bool-cases, inl, inr,
}
use olproff_fastsbc_hmr.Text.{Bytes, codes}
use olproff_fastsbc_hmr.Value.{ValueMode}
use olproff_fastsbc_hmr.Ast.{HeaderRule}
use olproff_fastsbc_hmr.Ast.Factory
use olproff_fastsbc_hmr.Diagnostics.{SourceLocation}
use olproff_fastsbc_hmr.Parser.{HeaderRuleItem, HeaderRuleContext, AttrValue, Collected}
use olproff_fastsbc_hmr.Parser.Keys.{HeaderKey, header_key}
use olproff_fastsbc_hmr.Parser.Attributes.{
  header_attr, apply_header_attr, key_of, key_loc, value_of, warning_of, ignoring,
}
use olproff_fastsbc_hmr.Parser.Build.{header_item, build_header_rule, new_header_rule}
use olproff_fastsbc_hmr.Parser.Expected.{guarded, last_given, or_else, behind}
use olproff_fastsbc_hmr.Parser.Expected.Elements.{element_reads}
use olproff_fastsbc_hmr.Parser.Expected.Headers.{
  header_name, header_header_name, header_action, header_comparison, header_msg_type,
  header_methods, header_match_value, header_new_value, header_fits, header_said, header_give,
  header_item_fits, header_item_said, set_header, header_of, header_reads, header_diagnostics,
  elements_of,
}
use olproff_fastsbc_hmr.Parser.Built.{
  last_given_cons, behind_nothing, for_each_lem, add_warning-behind, apply_enum_lem,
  apply_value_lem,
}
use olproff_fastsbc_hmr.Parser.Built.Elements.{build_element_rule_lem}

-- What one attribute sets.
abbrev given_header : HeaderKey → AttrValue → HeaderRule → HeaderRule
given_header k v hr = record {
  name = or_else (header_name k v) hr.name;
  header_name = or_else (header_header_name k v) hr.header_name;
  action = or_else (header_action k v) hr.action;
  comparison = or_else (header_comparison k v) hr.comparison;
  msg_type = or_else (header_msg_type k v) hr.msg_type;
  methods = or_else (header_methods k v) hr.methods;
  match_value = or_else (header_match_value k v) hr.match_value;
  new_value = or_else (header_new_value k v) hr.new_value;
  element_rules = hr.element_rules;
  loc = hr.loc;
}

header_attr_lem :
    (k : HeaderKey) (key : Bytes) (loc : SourceLocation) (v : AttrValue) (hr : HeaderRule)
    (d : Collected)
    → header_attr k key loc v hr d
      ≡ guarded (header_fits k v) (given_header k v hr, behind d (header_said k key loc v))
unfolding header_attr
header_attr_lem HeaderKey.name key loc v hr d = rw (behind_nothing d) refl
header_attr_lem HeaderKey.header_name key loc v hr d = rw (behind_nothing d) refl
header_attr_lem HeaderKey.action key loc v hr d =
    apply_enum_lem (codes "header action") (Factory.header_action v.raw) v
      (λ t. record hr { action = or_else t hr.action }) d
header_attr_lem HeaderKey.comparison_type key loc v hr d =
    apply_enum_lem (codes "comparison-type") (Factory.comparison v.raw) v
      (λ t. record hr { comparison = or_else t hr.comparison }) d
header_attr_lem HeaderKey.msg_type key loc v hr d =
    apply_enum_lem (codes "msg-type") (Factory.msg_type v.raw) v
      (λ t. record hr { msg_type = or_else t hr.msg_type }) d
header_attr_lem HeaderKey.methods key loc v hr d = rw (behind_nothing d) refl
header_attr_lem HeaderKey.match_value key loc v hr d =
    apply_value_lem ValueMode.match_value v
      (λ t. record hr { match_value = or_else t hr.match_value }) d
header_attr_lem HeaderKey.new_value key loc v hr d =
    apply_value_lem ValueMode.new_value v (λ t. record hr { new_value = or_else t hr.new_value }) d
header_attr_lem HeaderKey.unknown key loc v hr d =
    rw (add_warning-behind (warning_of (ignoring (codes "header-rule") key) loc) d) refl

header_item_lem :
    (x : HeaderRuleItem) (hr : HeaderRule) (d : Collected)
    → header_item x hr d
      ≡ guarded (header_item_fits x) (set_header hr (x ∷ []), behind d (header_item_said x))
unfolding header_item apply_header_attr set_header last_given
header_item_lem (HeaderRuleItem.element_rule e) hr d = elim (Bool-cases (element_reads e)) [
  | inl reads_ ↦ rw (build_element_rule_lem e d, reads_, header_item) refl
  | inr reads_ ↦ rw (build_element_rule_lem e d, reads_, header_item) refl
]
header_item_lem (HeaderRuleItem.attribute a) hr d =
    rw (append-nil hr.element_rules)
      (header_attr_lem (header_key (key_of a)) (key_of a) (key_loc a) (value_of a) hr d)
header_item_lem HeaderRuleItem.newline hr d =
    rw (behind_nothing d, append-nil hr.element_rules) refl

set_header_nil : (hr : HeaderRule) → set_header hr [] ≡ hr
unfolding set_header last_given
set_header_nil hr = rw (append-nil hr.element_rules) refl

elements_of_cons :
    (x : HeaderRuleItem) (xs : List HeaderRuleItem)
    → elements_of (x ∷ xs) ≡ elements_of (x ∷ []) ++ elements_of xs
elements_of_cons (HeaderRuleItem.element_rule e) xs = refl
elements_of_cons (HeaderRuleItem.attribute a) xs = refl
elements_of_cons HeaderRuleItem.newline xs = refl

set_header_again :
    (hr : HeaderRule) (x : HeaderRuleItem) (xs : List HeaderRuleItem)
    → set_header (set_header hr (x ∷ [])) xs ≡ set_header hr (x ∷ xs)
unfolding set_header
set_header_again hr x xs =
    rw
      (
        last_given_cons (header_give header_name) x xs hr.name,
        last_given_cons (header_give header_header_name) x xs hr.header_name,
        last_given_cons (header_give header_action) x xs hr.action,
        last_given_cons (header_give header_comparison) x xs hr.comparison,
        last_given_cons (header_give header_msg_type) x xs hr.msg_type,
        last_given_cons (header_give header_methods) x xs hr.methods,
        last_given_cons (header_give header_match_value) x xs hr.match_value,
        last_given_cons (header_give header_new_value) x xs hr.new_value,
        elements_of_cons x xs,
        append_assoc hr.element_rules (elements_of (x ∷ [])) (elements_of xs),
      )
      refl

pub build_header_rule_lem :
    (ctx : HeaderRuleContext) (d : Collected)
    → build_header_rule ctx d
      ≡ guarded (header_reads ctx) (header_of ctx, behind d (header_diagnostics ctx))
unfolding build_header_rule header_reads header_of header_diagnostics
build_header_rule_lem ctx d =
    for_each_lem header_item header_item_fits set_header header_item_said header_item_lem
      set_header_nil set_header_again ctx.items (new_header_rule ctx) d
