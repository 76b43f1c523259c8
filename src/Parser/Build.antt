-- ===== src/Parser/Build.antt =====
-- src/parser/parser.cpp: the blocks, and Parser::parse. `none` is the std::out_of_range that Value::parse
-- throws, which leaves Parser::parse.
use olproff_fastsbc_hmr.Base.{
  Bool, false, Option, none, some, List, [], ◌∷◌, ◌++◌, ◌==◌, if◌then◌else◌, length, map,
}
use olproff_fastsbc_hmr.Text.{Bytes, codes}
use olproff_fastsbc_hmr.Value.{Value}
use olproff_fastsbc_hmr.Ast.{
  HeaderAction, ElementAction, ElementType, ComparisonType, MatchValType, MsgType, ElementRule,
  HeaderRule, Ruleset,
}
use olproff_fastsbc_hmr.Diagnostics.{DiagSeverity, Diagnostic, Result, ok, unexpected, unknown_loc}
use olproff_fastsbc_hmr.Parser.{
  Token, ElementRuleItem, ElementRuleContext, HeaderRuleItem, HeaderRuleContext, ManipItem,
  ManipulationContext, UnitContext, Collected, Step, add_warning, for_each,
}
use olproff_fastsbc_hmr.Parser.Reading.{loc_of, syntax_error, block_name}
use olproff_fastsbc_hmr.Parser.Attributes.{
  apply_element_attr, apply_header_attr, apply_ruleset_attr, warning_of,
}

-- Value{}
abbrev pub no_value : Value
no_value = record { raw = []; segments = []; negated = false; ref_expression = false }

-- ElementRule{} with its location and name
unfoldable pub new_element_rule : ElementRuleContext → ElementRule
unfolding loc_of block_name
new_element_rule ctx = record {
  name = block_name ctx.value (loc_of ctx.start);
  parameter_name = [];
  type = ElementType.none;
  action = ElementAction.none;
  match_val_type = MatchValType.any;
  comparison = ComparisonType.case_sensitive;
  match_value = no_value;
  new_value = no_value;
  loc = loc_of ctx.start;
}

unfoldable pub element_item : ElementRuleItem → ElementRule → Collected → Step ElementRule
unfolding apply_element_attr
element_item (ElementRuleItem.attribute attr) er d = apply_element_attr attr er d
element_item ElementRuleItem.newline er d = some (er, d)

unfoldable pub build_element_rule : ElementRuleContext → Collected → Step ElementRule
unfolding new_element_rule for_each element_item
build_element_rule ctx d = for_each element_item ctx.items (new_element_rule ctx) d

-- HeaderRule{} with its location and name
unfoldable pub new_header_rule : HeaderRuleContext → HeaderRule
unfolding loc_of block_name
new_header_rule ctx = record {
  name = block_name ctx.value (loc_of ctx.start);
  header_name = [];
  action = HeaderAction.none;
  comparison = ComparisonType.case_sensitive;
  msg_type = MsgType.any;
  methods = [];
  match_value = no_value;
  new_value = no_value;
  element_rules = [];
  loc = loc_of ctx.start;
}

unfoldable pub header_item : HeaderRuleItem → HeaderRule → Collected → Step HeaderRule
unfolding build_element_rule apply_header_attr
header_item (HeaderRuleItem.element_rule erc) hr d = elim (build_element_rule erc d) [
  | none ↦ none
  | some (er, d') ↦ some (record hr { element_rules = hr.element_rules ++ er ∷ [] }, d')
]
header_item (HeaderRuleItem.attribute attr) hr d = apply_header_attr attr hr d
header_item HeaderRuleItem.newline hr d = some (hr, d)

unfoldable pub build_header_rule : HeaderRuleContext → Collected → Step HeaderRule
unfolding new_header_rule for_each header_item
build_header_rule ctx d = for_each header_item ctx.items (new_header_rule ctx) d

-- Ruleset{} with its location and name
unfoldable pub new_ruleset : ManipulationContext → Ruleset
unfolding loc_of block_name
new_ruleset ctx = record {
  name = block_name ctx.value (loc_of ctx.start);
  description = [];
  header_rules = [];
  split_headers = [];
  join_headers = [];
  import_file = [];
  export_file = [];
  loc = loc_of ctx.start;
}

unfoldable pub skipping : Token → Diagnostic
unfolding warning_of loc_of
skipping start =
    warning_of (codes "skipping unsupported block '" ++ (start.text ++ codes "'"))
      (loc_of (some start))

unfoldable pub manip_item : ManipItem → Ruleset → Collected → Step Ruleset
unfolding build_header_rule apply_ruleset_attr add_warning skipping
manip_item (ManipItem.header_rule hrc) rs d = elim (build_header_rule hrc d) [
  | none ↦ none
  | some (hr, d') ↦ some (record rs { header_rules = rs.header_rules ++ hr ∷ [] }, d')
]
manip_item (ManipItem.mime_rule start) rs d = some (rs, add_warning (skipping start) d)
manip_item (ManipItem.attribute attr) rs d = apply_ruleset_attr attr rs d
manip_item ManipItem.newline rs d = some (rs, d)

unfoldable pub build_ruleset : ManipulationContext → Collected → Step Ruleset
unfolding new_ruleset for_each manip_item
build_ruleset ctx d = for_each manip_item ctx.items (new_ruleset ctx) d

pub record Parser : Type 0 where
  pub source_ : Bytes
  pub warnings_ : List Diagnostic

-- Parser(source)
abbrev pub parser : Bytes → Parser
parser source = record { source_ = source; warnings_ = [] }

-- text.back() == '\n'
unfoldable pub ends_line : Bytes → Bool
ends_line [] = false
ends_line (c ∷ []) = c == b'\n'
ends_line (c ∷ d ∷ s) = ends_line (d ∷ s)

unfoldable pub with_newline : Bytes → Bytes
unfolding ends_line
with_newline s = if ends_line s then s else s ++ b'\n' ∷ []

unfoldable pub additional : ManipulationContext → Diagnostic
unfolding warning_of loc_of
additional ctx =
    warning_of (codes "ignoring additional sip-manipulation block (only the first is compiled)")
      (loc_of ctx.start)

unfoldable pub expected_block : Diagnostic
expected_block = record {
  severity = DiagSeverity.error;
  message = codes "expected 'sip-manipulation' at start of ruleset";
  loc = unknown_loc;
}

-- `if (!errors.empty()) return std::unexpected(Error{std::move(errors)}); return rs;`
unfoldable pub outcome : List Diagnostic → Ruleset → Result Ruleset
outcome [] rs = ok rs
outcome (e ∷ errors) rs = unexpected (record { diagnostics_ = e ∷ errors })

-- The blocks of the tree, with the syntax errors that are there and the member warnings_.
unfoldable pub build_unit :
    List ManipulationContext
    → List Diagnostic
    → List Diagnostic
    → Option (Result Ruleset × List Diagnostic)
unfolding build_ruleset expected_block outcome additional
build_unit [] errors warnings = some (
  unexpected (record { diagnostics_ = if length errors == 0 then expected_block ∷ [] else errors }),
  warnings,
)
build_unit (m ∷ ms) errors warnings =
    elim (build_ruleset m (record { errors = errors; warnings = warnings })) [
      | none ↦ none
      | some (rs, d) ↦ some (outcome d.errors rs, d.warnings ++ map additional ms)
    ]

abbrev pub keep_warnings :
    Parser → Option (Result Ruleset × List Diagnostic) → Option (Result Ruleset × Parser)
keep_warnings p none = none
keep_warnings p (some (r, warnings)) = some (r, record p { warnings_ = warnings })

-- Parser::parse: the result, and the parser with its warnings. `generated` is the lexer and the parser
-- that the build makes.
unfoldable pub parse : (Bytes → UnitContext) → Parser → Option (Result Ruleset × Parser)
unfolding with_newline syntax_error build_unit
parse generated p =
    let unit = generated (with_newline p.source_) in
    keep_warnings p (build_unit unit.manipulation (map syntax_error unit.syntax_errors) p.warnings_)

unfoldable pub parse_string : (Bytes → UnitContext) → Bytes → Option (Result Ruleset)
unfolding parse
parse_string generated source = elim (parse generated (parser source)) [
  | none ↦ none
  | some (r, p) ↦ some r
]
