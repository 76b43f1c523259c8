-- ===== src/Parser/Outcome.antt =====
-- Parser::parse of src/parser/parser.cpp.
use olproff_fastsbc_hmr.Base.{
  true, false, Option, none, some, List, [], ◌∷◌, ◌++◌, length, map, ◌≡◌, refl, append_assoc,
  Bool-cases, suc-==_false, ap₂, List-cases, inl, inr,
}
use olproff_fastsbc_hmr.Text.{Bytes}
use olproff_fastsbc_hmr.Ast.{Ruleset}
use olproff_fastsbc_hmr.Diagnostics.{Diagnostic, Result, ok, unexpected}
use olproff_fastsbc_hmr.Parser.{ManipulationContext, UnitContext}
use olproff_fastsbc_hmr.Parser.Reading.{syntax_error}
use olproff_fastsbc_hmr.Parser.Build.{
  Parser, with_newline, additional, expected_block, outcome, build_unit, parse, keep_warnings,
}
use olproff_fastsbc_hmr.Parser.Expected.Rulesets.{ruleset_of, ruleset_reads, ruleset_diagnostics}
use olproff_fastsbc_hmr.Parser.Built.Rulesets.{build_ruleset_lem}

-- The errors of the lexer and the parser, then those of the block.
abbrev pub errors_of : UnitContext → ManipulationContext → List Diagnostic
errors_of unit m = map syntax_error unit.syntax_errors ++ (ruleset_diagnostics m).errors

-- The parser behind a run over a block and further ones.
abbrev pub warned_by : Parser → ManipulationContext → List ManipulationContext → Parser
warned_by p m ms = record p {
  warnings_ = p.warnings_ ++ ((ruleset_diagnostics m).warnings ++ map additional ms);
}

-- How Parser::parse ends on a tree: `none` is an exception.
pub data Outcome (unit : UnitContext) (p : Parser) : Option (Result Ruleset × Parser) → Type 0 where
  accepted :
      (m : ManipulationContext) (ms : List ManipulationContext)
      → unit.manipulation ≡ m ∷ ms
      → ruleset_reads m ≡ true
      → errors_of unit m ≡ []
      → Outcome unit p (some (ok (ruleset_of m), warned_by p m ms))
  rejected :
      (m : ManipulationContext) (ms : List ManipulationContext) (e : Diagnostic)
      (es : List Diagnostic)
      → unit.manipulation ≡ m ∷ ms
      → ruleset_reads m ≡ true
      → errors_of unit m ≡ e ∷ es
      → Outcome unit p (some (unexpected (record { diagnostics_ = e ∷ es }), warned_by p m ms))
  no_block :
      unit.manipulation ≡ []
      → map syntax_error unit.syntax_errors ≡ []
      → Outcome unit p (some (unexpected (record { diagnostics_ = expected_block ∷ [] }), p))
  no_tree :
      (e : Diagnostic) (es : List Diagnostic)
      → unit.manipulation ≡ []
      → map syntax_error unit.syntax_errors ≡ e ∷ es
      → Outcome unit p (some (unexpected (record { diagnostics_ = e ∷ es }), p))
  thrown :
      (m : ManipulationContext) (ms : List ManipulationContext)
      → unit.manipulation ≡ m ∷ ms
      → ruleset_reads m ≡ false
      → Outcome unit p none

build_readable :
    (m : ManipulationContext) (ms : List ManipulationContext) (errors warnings : List Diagnostic)
    → ruleset_reads m ≡ true
    → build_unit (m ∷ ms) errors warnings
      ≡ some (
        outcome (errors ++ (ruleset_diagnostics m).errors) (ruleset_of m),
        warnings ++ ((ruleset_diagnostics m).warnings ++ map additional ms),
      )
unfolding build_unit
build_readable m ms errors warnings reads_ =
    rw (build_ruleset_lem m (record { errors = errors; warnings = warnings }), reads_, build_unit)
      (rw (append_assoc warnings (ruleset_diagnostics m).warnings (map additional ms)) refl)

build_unreadable :
    (m : ManipulationContext) (ms : List ManipulationContext) (errors warnings : List Diagnostic)
    → ruleset_reads m ≡ false
    → build_unit (m ∷ ms) errors warnings ≡ none
unfolding build_unit
build_unreadable m ms errors warnings reads_ =
    rw (build_ruleset_lem m (record { errors = errors; warnings = warnings }), reads_, build_unit)
      refl

module _ (generated : Bytes → UnitContext) (p : Parser) where
  abbrev tree : UnitContext
  tree = generated (with_newline p.source_)

  parse_tree :
      (ms : List ManipulationContext) (errors : List Diagnostic)
      → tree.manipulation ≡ ms
      → map syntax_error tree.syntax_errors ≡ errors
      → parse generated p ≡ keep_warnings p (build_unit ms errors p.warnings_)
  unfolding parse
  parse_tree ms errors tree_ errors_ =
      ap₂ (λ l e. keep_warnings p (build_unit l e p.warnings_)) tree_ errors_

  block-Outcome :
      (m : ManipulationContext) (ms : List ManipulationContext)
      → tree.manipulation ≡ m ∷ ms
      → Outcome tree p (parse generated p)
  unfolding outcome
  block-Outcome m ms tree_ =
      let errors = map syntax_error tree.syntax_errors in
      elim (Bool-cases (ruleset_reads m)) [
        | inr reads_ ↦
            rw
              (
                parse_tree (m ∷ ms) errors tree_ refl,
                build_unreadable m ms errors p.warnings_ reads_,
              )
              (thrown m ms tree_ reads_)
        | inl reads_ ↦
            rw
              (parse_tree (m ∷ ms) errors tree_ refl, build_readable m ms errors p.warnings_ reads_)
              (elim (List-cases (errors_of tree m)) [
                | inl none_ ↦ rw none_ (accepted m ms tree_ reads_ none_)
                | inr (e, es, some_) ↦ rw some_ (rejected m ms e es tree_ reads_ some_)
              ])
      ]

  -- Whatever tree and syntax errors the generated parser gives: parse of a text whose first block has
  -- only values that can be read gives the ruleset that the block says (for each field the last attribute
  -- that gives it, else its default; the rules in order), if there is no syntax error and no unknown
  -- keyword in the block, and else the syntax errors and then those of the block, in order. It adds to the
  -- warnings those of the block, in order, and one for each further block. Without a block it gives the
  -- syntax errors, or the error that a block is expected. A value that cannot be read ends it with an
  -- exception.
  pub parse-Outcome : Outcome tree p (parse generated p)
  unfolding build_unit
  parse-Outcome = elim (List-cases tree.manipulation) [
    | inr (m, ms, tree_) ↦ block-Outcome m ms tree_
    | inl tree_ ↦ elim (List-cases (map syntax_error tree.syntax_errors)) [
      | inl none_ ↦ rw (parse_tree [] [] tree_ none_) (no_block tree_ none_)
      | inr (e, es, some_) ↦
          rw (parse_tree [] (e ∷ es) tree_ some_)
            (rw (suc-==_false (length es)) (no_tree e es tree_ some_))
    ]
  ]
