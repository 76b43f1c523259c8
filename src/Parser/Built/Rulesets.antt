-- ===== src/Parser/Built/Rulesets.antt =====
-- build_ruleset of src/parser/parser.cpp.
use olproff_fastsbc_hmr.Base.{
  some, List, [], ◌∷◌, ◌++◌, ◌≡◌, refl, append-nil, append_assoc, Bool-cases, inl, inr,
}
use olproff_fastsbc_hmr.Text.{Bytes, codes}
use olproff_fastsbc_hmr.Ast.{Ruleset}
use olproff_fastsbc_hmr.Diagnostics.{SourceLocation}
use olproff_fastsbc_hmr.Parser.{ManipItem, ManipulationContext, AttrValue, Collected}
use olproff_fastsbc_hmr.Parser.Keys.{RulesetKey, ruleset_key}
use olproff_fastsbc_hmr.Parser.Attributes.{
  ruleset_attr, apply_ruleset_attr, key_of, key_loc, value_of, warning_of, ignoring, legacy,
}
use olproff_fastsbc_hmr.Parser.Build.{manip_item, build_ruleset, new_ruleset, skipping}
use olproff_fastsbc_hmr.Parser.Expected.{guarded, last_given, or_else, behind}
use olproff_fastsbc_hmr.Parser.Expected.Headers.{header_reads}
use olproff_fastsbc_hmr.Parser.Expected.Rulesets.{
  ruleset_name, ruleset_description, ruleset_split_headers, ruleset_join_headers,
  ruleset_import_file, ruleset_export_file, ruleset_said, ruleset_give, manip_item_fits,
  manip_item_said, set_ruleset, ruleset_of, ruleset_reads, ruleset_diagnostics, headers_of,
}
use olproff_fastsbc_hmr.Parser.Built.{
  last_given_cons, behind_nothing, for_each_lem, add_warning-behind,
}
use olproff_fastsbc_hmr.Parser.Built.Headers.{build_header_rule_lem}

-- What one attribute sets.
abbrev given_ruleset : RulesetKey → AttrValue → Ruleset → Ruleset
given_ruleset k v rs = record {
  name = or_else (ruleset_name k v) rs.name;
  description = or_else (ruleset_description k v) rs.description;
  split_headers = or_else (ruleset_split_headers k v) rs.split_headers;
  join_headers = or_else (ruleset_join_headers k v) rs.join_headers;
  import_file = or_else (ruleset_import_file k v) rs.import_file;
  export_file = or_else (ruleset_export_file k v) rs.export_file;
  header_rules = rs.header_rules;
  loc = rs.loc;
}

ruleset_attr_lem :
    (k : RulesetKey) (key : Bytes) (loc : SourceLocation) (v : AttrValue) (rs : Ruleset)
    (d : Collected)
    → ruleset_attr k key loc v rs d
      ≡ some (given_ruleset k v rs, behind d (ruleset_said k key loc v))
unfolding ruleset_attr
ruleset_attr_lem RulesetKey.name key loc v rs d = rw (behind_nothing d) refl
ruleset_attr_lem RulesetKey.description key loc v rs d = rw (behind_nothing d) refl
ruleset_attr_lem RulesetKey.import_file key loc v rs d = rw (behind_nothing d) refl
ruleset_attr_lem RulesetKey.export_file key loc v rs d = rw (behind_nothing d) refl
ruleset_attr_lem RulesetKey.split_headers key loc v rs d =
    rw (add_warning-behind (warning_of (legacy (codes "split-headers")) loc) d) refl
ruleset_attr_lem RulesetKey.join_headers key loc v rs d =
    rw (add_warning-behind (warning_of (legacy (codes "join-headers")) loc) d) refl
ruleset_attr_lem RulesetKey.unknown key loc v rs d =
    rw (add_warning-behind (warning_of (ignoring (codes "sip-manipulation") key) loc) d) refl

manip_item_lem :
    (x : ManipItem) (rs : Ruleset) (d : Collected)
    → manip_item x rs d
      ≡ guarded (manip_item_fits x) (set_ruleset rs (x ∷ []), behind d (manip_item_said x))
unfolding manip_item apply_ruleset_attr set_ruleset last_given
manip_item_lem (ManipItem.header_rule h) rs d = elim (Bool-cases (header_reads h)) [
  | inl reads_ ↦ rw (build_header_rule_lem h d, reads_, manip_item) refl
  | inr reads_ ↦ rw (build_header_rule_lem h d, reads_, manip_item) refl
]
manip_item_lem (ManipItem.mime_rule start) rs d =
    rw (add_warning-behind (skipping start) d, append-nil rs.header_rules) refl
manip_item_lem (ManipItem.attribute a) rs d =
    rw (append-nil rs.header_rules)
      (ruleset_attr_lem (ruleset_key (key_of a)) (key_of a) (key_loc a) (value_of a) rs d)
manip_item_lem ManipItem.newline rs d = rw (behind_nothing d, append-nil rs.header_rules) refl

set_ruleset_nil : (rs : Ruleset) → set_ruleset rs [] ≡ rs
unfolding set_ruleset last_given
set_ruleset_nil rs = rw (append-nil rs.header_rules) refl

headers_of_cons :
    (x : ManipItem) (xs : List ManipItem)
    → headers_of (x ∷ xs) ≡ headers_of (x ∷ []) ++ headers_of xs
headers_of_cons (ManipItem.header_rule h) xs = refl
headers_of_cons (ManipItem.mime_rule start) xs = refl
headers_of_cons (ManipItem.attribute a) xs = refl
headers_of_cons ManipItem.newline xs = refl

set_ruleset_again :
    (rs : Ruleset) (x : ManipItem) (xs : List ManipItem)
    → set_ruleset (set_ruleset rs (x ∷ [])) xs ≡ set_ruleset rs (x ∷ xs)
unfolding set_ruleset
set_ruleset_again rs x xs =
    rw
      (
        last_given_cons (ruleset_give ruleset_name) x xs rs.name,
        last_given_cons (ruleset_give ruleset_description) x xs rs.description,
        last_given_cons (ruleset_give ruleset_split_headers) x xs rs.split_headers,
        last_given_cons (ruleset_give ruleset_join_headers) x xs rs.join_headers,
        last_given_cons (ruleset_give ruleset_import_file) x xs rs.import_file,
        last_given_cons (ruleset_give ruleset_export_file) x xs rs.export_file,
        headers_of_cons x xs,
        append_assoc rs.header_rules (headers_of (x ∷ [])) (headers_of xs),
      )
      refl

pub build_ruleset_lem :
    (ctx : ManipulationContext) (d : Collected)
    → build_ruleset ctx d
      ≡ guarded (ruleset_reads ctx) (ruleset_of ctx, behind d (ruleset_diagnostics ctx))
unfolding build_ruleset ruleset_reads ruleset_of ruleset_diagnostics
build_ruleset_lem ctx d =
    for_each_lem manip_item manip_item_fits set_ruleset manip_item_said manip_item_lem
      set_ruleset_nil set_ruleset_again ctx.items (new_ruleset ctx) d
