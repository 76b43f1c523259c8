-- ===== src/Parser/Attributes.antt =====
-- src/parser/parser.cpp: what an attribute does to its block.
use olproff_fastsbc_hmr.Base.{Option, none, some, ◌++◌, ◌==◌, if◌then◌else◌}
use olproff_fastsbc_hmr.Text.{Bytes, codes}
use olproff_fastsbc_hmr.Value.{ValueMode, Value}
use olproff_fastsbc_hmr.Value.Parse.{parse}
use olproff_fastsbc_hmr.Ast.{ElementRule, HeaderRule, Ruleset}
use olproff_fastsbc_hmr.Ast.Factory.{
  lower, header_action, element_action, element_type, comparison, match_val_type, msg_type,
  parse_methods,
}
use olproff_fastsbc_hmr.Diagnostics.{SourceLocation, DiagSeverity, Diagnostic}
use olproff_fastsbc_hmr.Parser.{AttributeContext, AttrValue, Collected, Step, add_warning}
use olproff_fastsbc_hmr.Parser.Keys.{
  ElementKey, HeaderKey, RulesetKey, element_key, header_key, ruleset_key,
}
use olproff_fastsbc_hmr.Parser.Reading.{loc_of, read_value, unknown_enum}

-- `if (val.count) { if (auto e = ...) field = *e; else unknown_enum(errors, what, val); }`
unfoldable pub apply_enum :
    {E S : Type 0} → Bytes → Option E → AttrValue → (E → S) → S → Collected → Step S
unfolding unknown_enum
apply_enum what parsed val assign s d =
    if val.count == 0
    then some (s, d)
    else elim parsed [ some e ↦ some (assign e, d) | none ↦ some (s, unknown_enum what val d) ]

-- `field = Value::parse(val.raw, mode, val.quoted);`
unfoldable pub apply_value : {S : Type 0} → ValueMode → AttrValue → (Value → S) → Collected → Step S
unfolding parse
apply_value mode val assign d = elim (parse val.raw mode val.quoted) [
  | some v ↦ some (assign v, d)
  | none ↦ none
]

unfoldable pub warning_of : Bytes → SourceLocation → Diagnostic
warning_of text loc = record { severity = DiagSeverity.warning; message = text; loc = loc }

unfoldable pub ignoring : Bytes → Bytes → Bytes
ignoring block key =
    codes "ignoring unknown " ++ (block ++ (codes " attribute '" ++ (key ++ codes "'")))

unfoldable pub legacy : Bytes → Bytes
legacy key = codes "'" ++ (key ++ codes "' is a legacy attribute (deprecated)")

-- The branches of apply_element_attr.
unfoldable pub element_attr :
    ElementKey → Bytes → SourceLocation → AttrValue → ElementRule → Collected → Step ElementRule
unfolding apply_enum apply_value element_type element_action match_val_type comparison add_warning
    warning_of ignoring
element_attr ElementKey.name key loc val er d = some (record er { name = val.raw }, d)
element_attr ElementKey.parameter_name key loc val er d =
    some (record er { parameter_name = val.raw }, d)
element_attr ElementKey.type key loc val er d =
    apply_enum (codes "element type") (element_type val.raw) val (λ t. record er { type = t }) er d
element_attr ElementKey.action key loc val er d =
    apply_enum (codes "element action") (element_action val.raw) val (λ a. record er { action = a })
      er d
element_attr ElementKey.match_val_type key loc val er d =
    apply_enum (codes "match-val-type") (match_val_type val.raw) val
      (λ m. record er { match_val_type = m }) er d
element_attr ElementKey.comparison_type key loc val er d =
    apply_enum (codes "comparison-type") (comparison val.raw) val
      (λ c. record er { comparison = c }) er d
element_attr ElementKey.match_value key loc val er d =
    apply_value ValueMode.match_value val (λ v. record er { match_value = v }) d
element_attr ElementKey.new_value key loc val er d =
    apply_value ValueMode.new_value val (λ v. record er { new_value = v }) d
element_attr ElementKey.unknown key loc val er d =
    some (er, add_warning (warning_of (ignoring (codes "element-rule") key) loc) d)

-- The branches of apply_header_attr.
unfoldable pub header_attr :
    HeaderKey → Bytes → SourceLocation → AttrValue → HeaderRule → Collected → Step HeaderRule
unfolding apply_enum apply_value header_action comparison msg_type parse_methods add_warning
    warning_of ignoring
header_attr HeaderKey.name key loc val hr d = some (record hr { name = val.raw }, d)
header_attr HeaderKey.header_name key loc val hr d = some (record hr { header_name = val.raw }, d)
header_attr HeaderKey.action key loc val hr d =
    apply_enum (codes "header action") (header_action val.raw) val (λ a. record hr { action = a })
      hr d
header_attr HeaderKey.comparison_type key loc val hr d =
    apply_enum (codes "comparison-type") (comparison val.raw) val
      (λ c. record hr { comparison = c }) hr d
header_attr HeaderKey.msg_type key loc val hr d =
    apply_enum (codes "msg-type") (msg_type val.raw) val (λ m. record hr { msg_type = m }) hr d
header_attr HeaderKey.methods key loc val hr d =
    some (record hr { methods = parse_methods val.raw }, d)
header_attr HeaderKey.match_value key loc val hr d =
    apply_value ValueMode.match_value val (λ v. record hr { match_value = v }) d
header_attr HeaderKey.new_value key loc val hr d =
    apply_value ValueMode.new_value val (λ v. record hr { new_value = v }) d
header_attr HeaderKey.unknown key loc val hr d =
    some (hr, add_warning (warning_of (ignoring (codes "header-rule") key) loc) d)

-- The branches of apply_ruleset_attr.
unfoldable pub ruleset_attr :
    RulesetKey → Bytes → SourceLocation → AttrValue → Ruleset → Collected → Step Ruleset
unfolding parse_methods add_warning warning_of ignoring legacy
ruleset_attr RulesetKey.name key loc val rs d = some (record rs { name = val.raw }, d)
ruleset_attr RulesetKey.description key loc val rs d = some (record rs { description = val.raw }, d)
ruleset_attr RulesetKey.import_file key loc val rs d = some (record rs { import_file = val.raw }, d)
ruleset_attr RulesetKey.export_file key loc val rs d = some (record rs { export_file = val.raw }, d)
ruleset_attr RulesetKey.split_headers key loc val rs d = some (
  record rs { split_headers = parse_methods val.raw },
  add_warning (warning_of (legacy (codes "split-headers")) loc) d,
)
ruleset_attr RulesetKey.join_headers key loc val rs d = some (
  record rs { join_headers = parse_methods val.raw },
  add_warning (warning_of (legacy (codes "join-headers")) loc) d,
)
ruleset_attr RulesetKey.unknown key loc val rs d =
    some (rs, add_warning (warning_of (ignoring (codes "sip-manipulation") key) loc) d)

-- The lowered key, its location and the value of an attribute.
unfoldable pub key_of : AttributeContext → Bytes
unfolding lower
key_of attr = lower attr.key_text

unfoldable pub key_loc : AttributeContext → SourceLocation
unfolding loc_of
key_loc attr = loc_of attr.key_start

unfoldable pub value_of : AttributeContext → AttrValue
unfolding read_value key_loc
value_of attr = read_value attr.value (key_loc attr)

unfoldable pub apply_element_attr : AttributeContext → ElementRule → Collected → Step ElementRule
unfolding element_attr element_key key_of key_loc value_of
apply_element_attr attr er d =
    element_attr (element_key (key_of attr)) (key_of attr) (key_loc attr) (value_of attr) er d

unfoldable pub apply_header_attr : AttributeContext → HeaderRule → Collected → Step HeaderRule
unfolding header_attr header_key key_of key_loc value_of
apply_header_attr attr hr d =
    header_attr (header_key (key_of attr)) (key_of attr) (key_loc attr) (value_of attr) hr d

unfoldable pub apply_ruleset_attr : AttributeContext → Ruleset → Collected → Step Ruleset
unfolding ruleset_attr ruleset_key key_of key_loc value_of
apply_ruleset_attr attr rs d =
    ruleset_attr (ruleset_key (key_of attr)) (key_of attr) (key_loc attr) (value_of attr) rs d
