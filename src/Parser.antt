-- ===== src/Parser.antt =====
-- include/hmr/parser/parser.hpp and src/parser/parser.cpp: from the parse tree to the syntax tree. The
-- lexer and the parser proper are made from grammar/Hmr.g4 by the build: they are an argument, a
-- function from the text to the syntax errors and the tree. A tree has the parts that the rules of the
-- grammar name and the code reads. Diagnostics are collected in two lists, which the code passes by
-- reference.
pub mod Reading
pub mod Keys
pub mod Attributes
pub mod Build
pub mod Expected
pub mod Built
pub mod Outcome
pub mod Escapes
use olproff_fastsbc_hmr.Base.{ℕ, Bool, Option, none, some, List, [], ◌∷◌, ◌++◌}
use olproff_fastsbc_hmr.Text.{Bytes}
use olproff_fastsbc_hmr.Diagnostics.{SourceLocation, Diagnostic}

-- getLine(), getCharPositionInLine() and getText()
pub record Token : Type 0 where
  pub line : ℕ
  pub position : ℕ
  pub text : Bytes

-- A STRING with its quotes, or a WORD or a keyword.
pub data ValueAtom : Type 0 where
  string : Bytes → ValueAtom
  word : Bytes → ValueAtom

pub record ValueContext : Type 0 where
  pub start : Option Token
  pub atoms : List ValueAtom

pub record AttributeContext : Type 0 where
  pub key_start : Option Token
  pub key_text : Bytes
  pub value : Option ValueContext

pub data ElementRuleItem : Type 0 where
  attribute : AttributeContext → ElementRuleItem
  newline : ElementRuleItem

pub record ElementRuleContext : Type 0 where
  pub start : Option Token
  pub value : Option ValueContext
  pub items : List ElementRuleItem

pub data HeaderRuleItem : Type 0 where
  element_rule : ElementRuleContext → HeaderRuleItem
  attribute : AttributeContext → HeaderRuleItem
  newline : HeaderRuleItem

pub record HeaderRuleContext : Type 0 where
  pub start : Option Token
  pub value : Option ValueContext
  pub items : List HeaderRuleItem

pub data ManipItem : Type 0 where
  header_rule : HeaderRuleContext → ManipItem
  mime_rule : Token → ManipItem
  attribute : AttributeContext → ManipItem
  newline : ManipItem

pub record ManipulationContext : Type 0 where
  pub start : Option Token
  pub value : Option ValueContext
  pub items : List ManipItem

-- A call of syntaxError
pub record SyntaxError : Type 0 where
  pub line : ℕ
  pub col : ℕ
  pub msg : Bytes

-- What HmrLexer and HmrParser::unit give for a text.
pub record UnitContext : Type 0 where
  pub syntax_errors : List SyntaxError
  pub manipulation : List ManipulationContext

pub record AttrValue : Type 0 where
  pub raw : Bytes
  pub quoted : Bool
  pub count : ℕ
  pub loc : SourceLocation

-- The arguments `errors` and `warnings`.
pub record Collected : Type 0 where
  pub errors : List Diagnostic
  pub warnings : List Diagnostic

unfoldable pub add_error : Diagnostic → Collected → Collected
add_error e d = record d { errors = d.errors ++ e ∷ [] }

unfoldable pub add_warning : Diagnostic → Collected → Collected
add_warning w d = record d { warnings = d.warnings ++ w ∷ [] }

-- A result with what is collected behind it; `none` is the std::out_of_range that Value::parse throws.
abbrev pub Step : Type 0 → Type 0
Step S = Option (S × Collected)

-- `for (auto* item : items) body(item);`
unfoldable pub for_each :
    {X S : Type 0} → (X → S → Collected → Step S) → List X → S → Collected → Step S
for_each body [] s d = some (s, d)
for_each body (x ∷ xs) s d = elim (body x s d) [
  | none ↦ none
  | some (s', d') ↦ for_each body xs s' d'
]
