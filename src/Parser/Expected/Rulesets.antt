-- ===== src/Parser/Expected/Rulesets.antt =====
-- What a ruleset is to be, read off its block (src/parser/parser.cpp).
use olproff_fastsbc_hmr.Base.{Bool, true, Option, none, some, List, [], ◌∷◌, ◌++◌}
use olproff_fastsbc_hmr.Text.{Bytes, codes}
use olproff_fastsbc_hmr.Ast.{HeaderRule, Ruleset}
use olproff_fastsbc_hmr.Ast.Factory
use olproff_fastsbc_hmr.Diagnostics.{SourceLocation}
use olproff_fastsbc_hmr.Parser.{ManipItem, ManipulationContext, AttrValue, Collected}
use olproff_fastsbc_hmr.Parser.Keys.{RulesetKey, ruleset_key}
use olproff_fastsbc_hmr.Parser.Attributes.{key_of, key_loc, value_of, warning_of, ignoring, legacy}
use olproff_fastsbc_hmr.Parser.Build.{new_ruleset, skipping}
use olproff_fastsbc_hmr.Parser.Expected.{all, last_given, or_else, nothing, say, warned}
use olproff_fastsbc_hmr.Parser.Expected.Headers.{header_of, header_reads, header_diagnostics}

abbrev pub ruleset_name : RulesetKey → AttrValue → Option Bytes
ruleset_name RulesetKey.name v = some v.raw
ruleset_name _ v = none

abbrev pub ruleset_description : RulesetKey → AttrValue → Option Bytes
ruleset_description RulesetKey.description v = some v.raw
ruleset_description _ v = none

abbrev pub ruleset_split_headers : RulesetKey → AttrValue → Option (List Bytes)
ruleset_split_headers RulesetKey.split_headers v = some (Factory.parse_methods v.raw)
ruleset_split_headers _ v = none

abbrev pub ruleset_join_headers : RulesetKey → AttrValue → Option (List Bytes)
ruleset_join_headers RulesetKey.join_headers v = some (Factory.parse_methods v.raw)
ruleset_join_headers _ v = none

abbrev pub ruleset_import_file : RulesetKey → AttrValue → Option Bytes
ruleset_import_file RulesetKey.import_file v = some v.raw
ruleset_import_file _ v = none

abbrev pub ruleset_export_file : RulesetKey → AttrValue → Option Bytes
ruleset_export_file RulesetKey.export_file v = some v.raw
ruleset_export_file _ v = none

abbrev pub ruleset_said : RulesetKey → Bytes → SourceLocation → AttrValue → Collected
ruleset_said RulesetKey.split_headers key loc v =
    warned (warning_of (legacy (codes "split-headers")) loc)
ruleset_said RulesetKey.join_headers key loc v =
    warned (warning_of (legacy (codes "join-headers")) loc)
ruleset_said RulesetKey.unknown key loc v =
    warned (warning_of (ignoring (codes "sip-manipulation") key) loc)
ruleset_said _ key loc v = nothing

abbrev pub ruleset_give : {A : Type 0} → (RulesetKey → AttrValue → Option A) → ManipItem → Option A
ruleset_give give (ManipItem.attribute a) = give (ruleset_key (key_of a)) (value_of a)
ruleset_give give _ = none

abbrev pub headers_of : List ManipItem → List HeaderRule
headers_of [] = []
headers_of (ManipItem.header_rule h ∷ items) = header_of h ∷ headers_of items
headers_of (_ ∷ items) = headers_of items

abbrev pub manip_item_fits : ManipItem → Bool
manip_item_fits (ManipItem.header_rule h) = header_reads h
manip_item_fits _ = true

abbrev pub manip_item_said : ManipItem → Collected
manip_item_said (ManipItem.header_rule h) = header_diagnostics h
manip_item_said (ManipItem.mime_rule start) = warned (skipping start)
manip_item_said (ManipItem.attribute a) =
    ruleset_said (ruleset_key (key_of a)) (key_of a) (key_loc a) (value_of a)
manip_item_said ManipItem.newline = nothing

-- The last item of the list that gives a field sets it; header rules are appended in order.
unfoldable pub set_ruleset : Ruleset → List ManipItem → Ruleset
unfolding last_given
set_ruleset rs items = record {
  name = or_else (last_given (ruleset_give ruleset_name) items) rs.name;
  description = or_else (last_given (ruleset_give ruleset_description) items) rs.description;
  split_headers = or_else (last_given (ruleset_give ruleset_split_headers) items) rs.split_headers;
  join_headers = or_else (last_given (ruleset_give ruleset_join_headers) items) rs.join_headers;
  import_file = or_else (last_given (ruleset_give ruleset_import_file) items) rs.import_file;
  export_file = or_else (last_given (ruleset_give ruleset_export_file) items) rs.export_file;
  header_rules = rs.header_rules ++ headers_of items;
  loc = rs.loc;
}

unfoldable pub ruleset_of : ManipulationContext → Ruleset
unfolding set_ruleset new_ruleset
ruleset_of ctx = set_ruleset (new_ruleset ctx) ctx.items

unfoldable pub ruleset_reads : ManipulationContext → Bool
ruleset_reads ctx = all manip_item_fits ctx.items

unfoldable pub ruleset_diagnostics : ManipulationContext → Collected
unfolding say
ruleset_diagnostics ctx = say manip_item_said ctx.items
