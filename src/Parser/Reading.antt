-- ===== src/Parser/Reading.antt =====
-- src/parser/parser.cpp: source locations, string lexemes and the value of an attribute.
use olproff_fastsbc_hmr.Base.{
  ℕ, ◌+◌, ◌-◌, Bool, true, false, ◌&&◌, Option, none, some, List, [], ◌∷◌, ◌++◌, ltb, ◌==◌,
  if◌then◌else◌, length, u32,
}
use olproff_fastsbc_hmr.Text.{Bytes, codes, substr}
use olproff_fastsbc_hmr.Diagnostics.{SourceLocation, DiagSeverity, Diagnostic, unknown_loc}
use olproff_fastsbc_hmr.Parser.{
  Token, ValueAtom, string, word, ValueContext, SyntaxError, AttrValue, Collected, add_error,
}

unfoldable pub loc_of : Option Token → SourceLocation
unfolding u32
loc_of none = unknown_loc
loc_of (some t) = record { line = u32 t.line; column = u32 (t.position + 1) }

-- CollectingErrorListener::syntaxError
unfoldable pub syntax_error : SyntaxError → Diagnostic
unfolding u32
syntax_error e = record {
  severity = DiagSeverity.error;
  message = e.msg;
  loc = record { line = u32 e.line; column = u32 (e.col + 1) };
}

-- The byte that an escape stands for.
unfoldable pub escaped : ℕ → ℕ
escaped e = if e == b'n' then b'\n' else if e == b't' then b'\t' else if e == b'r' then b'\r' else e

-- The loop of unescape_string over the text between the quotes.
unfoldable pub unescape : Bytes → Bytes
unfolding escaped
unescape [] = []
unescape (c ∷ []) = c ∷ []
unescape (c ∷ e ∷ s) = elim (c == b'\\') [
  | true ↦ escaped e ∷ unescape s
  | false ↦ c ∷ unescape (e ∷ s)
]

unfoldable pub unescape_string : Bytes → Bytes
unfolding unescape
unescape_string lexeme =
    if ltb (length lexeme) 2 then [] else unescape (substr lexeme 1 (length lexeme - 2))

unfoldable pub atom_text : ValueAtom → Bytes
unfolding unescape_string
atom_text (string lexeme) = unescape_string lexeme
atom_text (word text) = text

-- The loop of read_value, with `raw`.
unfoldable pub join_atoms : Bytes → List ValueAtom → Bytes
unfolding atom_text
join_atoms raw [] = raw
join_atoms raw (a ∷ atoms) =
    join_atoms ((if length raw == 0 then raw else raw ++ b' ' ∷ []) ++ atom_text a) atoms

unfoldable pub first_string : List ValueAtom → Bool
first_string (string _ ∷ _) = true
first_string _ = false

unfoldable pub read_value : Option ValueContext → SourceLocation → AttrValue
unfolding loc_of join_atoms first_string
read_value none fallback = record { raw = []; quoted = false; count = 0; loc = fallback }
read_value (some v) fallback = record {
  raw = join_atoms [] v.atoms;
  quoted = length v.atoms == 1 && first_string v.atoms;
  count = length v.atoms;
  loc = loc_of v.start;
}

-- The diagnostic of unknown_enum
unfoldable pub unknown_enum_of : Bytes → AttrValue → Diagnostic
unknown_enum_of what val = record {
  severity = DiagSeverity.error;
  message = codes "unknown " ++ (what ++ (codes " '" ++ (val.raw ++ codes "'")));
  loc = val.loc;
}

unfoldable pub unknown_enum : Bytes → AttrValue → Collected → Collected
unfolding unknown_enum_of add_error
unknown_enum what val d = add_error (unknown_enum_of what val) d

-- `if (auto *v = ctx->value()) name = read_value(v, loc).raw;`
unfoldable pub block_name : Option ValueContext → SourceLocation → Bytes
unfolding read_value
block_name none loc = []
block_name (some v) loc = (read_value (some v) loc).raw
