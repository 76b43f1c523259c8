-- ===== src/Tests/Parsing.antt =====
-- The parser: a tree with a rule, an unknown attribute and an unknown enumerator.
use olproff_fastsbc_hmr.Base.{Option, none, some, List, [], ◌∷◌, ◌≡◌, refl, map}
use olproff_fastsbc_hmr.Text.{Bytes, codes}
use olproff_fastsbc_hmr.Ast.{HeaderAction, Ruleset}
use olproff_fastsbc_hmr.Diagnostics.{Result, ok, unexpected, format, format_one}
use olproff_fastsbc_hmr.Parser.{
  Token, word, AttributeContext, HeaderRuleItem, HeaderRuleContext, ManipItem, ManipulationContext,
  UnitContext,
}
use olproff_fastsbc_hmr.Parser.Reading.{unescape_string}
use olproff_fastsbc_hmr.Parser.Build.{Parser, parser, parse, with_newline}
use olproff_fastsbc_hmr.Parser.Outcome.{Outcome, parse-Outcome}
use olproff_fastsbc_hmr.Parser.Escapes.{IsBody, quote, written, unescape_string-written}

abbrev pub at : Bytes → Option Token
at text = some (record { line = 3; position = 8; text = text })

abbrev pub attr : Bytes → Bytes → AttributeContext
attr key value = record {
  key_start = at key;
  key_text = key;
  value = some (record { start = at value; atoms = word value ∷ [] });
}

abbrev pub header_block : List HeaderRuleItem → HeaderRuleContext
header_block items = record { start = at (codes "header-rule"); value = none; items = items }

abbrev pub block : List HeaderRuleItem → ManipulationContext
block items = record {
  start = at (codes "sip-manipulation");
  value = none;
  items =
      ManipItem.attribute (attr (codes "name") (codes "m"))
      ∷ ManipItem.newline
      ∷ ManipItem.header_rule (header_block items)
      ∷ [];
}

-- The generated parser, on the text of this block.
abbrev pub generated_for : List HeaderRuleItem → Bytes → UnitContext
generated_for items text = record { syntax_errors = []; manipulation = block items ∷ [] }

abbrev pub good : List HeaderRuleItem
good =
    HeaderRuleItem.attribute (attr (codes "Action") (codes "add"))
    ∷ HeaderRuleItem.attribute (attr (codes "action") (codes "DELETE"))
    ∷ HeaderRuleItem.attribute (attr (codes "colour") (codes "red"))
    ∷ []

abbrev bad : List HeaderRuleItem
bad = HeaderRuleItem.attribute (attr (codes "action") (codes "paint")) ∷ good

abbrev source : Parser
source = parser (codes "sip-manipulation")

parse-Outcome_example :
    Outcome
      (generated_for bad (with_newline source.source_))
      source
      (parse (generated_for bad) source)
parse-Outcome_example = parse-Outcome (generated_for bad) source

abbrev actions : Option (Result Ruleset × Parser) → List HeaderAction
actions (some (ok rs, p)) = map (λ r. r.action) rs.header_rules
actions _ = []

last_action : actions (parse (generated_for good) source) ≡ HeaderAction.delete ∷ []
unfolding parse
last_action = refl

abbrev warnings : Option (Result Ruleset × Parser) → List Bytes
warnings (some (r, p)) = map format_one p.warnings_
warnings none = []

warned :
    warnings (parse (generated_for good) source)
    ≡ codes "3:9: warning: ignoring unknown header-rule attribute 'colour'" ∷ []
unfolding parse format_one
warned = refl

abbrev failure : Option (Result Ruleset × Parser) → Bytes
failure (some (unexpected e, p)) = format e
failure _ = []

refused :
    failure (parse (generated_for bad) source) ≡ codes "3:9: error: unknown header action 'paint'"
unfolding parse format
refused = refl

abbrev quoted : Bytes
quoted = b'a' ∷ b'"' ∷ b'\\' ∷ b'\n' ∷ []

unescape_string-written_example :
    IsBody (written quoted) × (unescape_string (quote (written quoted)) ≡ quoted)
unescape_string-written_example = unescape_string-written quoted
