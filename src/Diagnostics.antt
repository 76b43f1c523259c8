-- ===== src/Diagnostics.antt =====
-- include/hmr/diagnostics/diagnostics.hpp: diagnostics, and the error that carries a list of them.
pub mod Format
use olproff_fastsbc_hmr.Base.{ℕ, List, [], ◌∷◌, ◌++◌, ◌==◌, if◌then◌else◌, length, take}
use olproff_fastsbc_hmr.Text.{Bytes, codes}
use olproff_fastsbc_hmr.Text.Number.{to_string}

-- Numbers from 1; a 0 is unknown.
pub record SourceLocation : Type 0 where
  pub line : ℕ
  pub column : ℕ

pub data DiagSeverity : Type 0 where
  error warning note : DiagSeverity

pub record Diagnostic : Type 0 where
  pub severity : DiagSeverity
  pub message : Bytes
  pub loc : SourceLocation

pub record Error : Type 0 where
  pub diagnostics_ : List Diagnostic

-- std::expected<T, Error>
pub data Result (A : Type 0) : Type 0 where
  ok : A → Result A
  unexpected : Error → Result A

-- SourceLocation{}
abbrev pub unknown_loc : SourceLocation
unknown_loc = record { line = 0; column = 0 }

-- Error(std::string, SourceLocation)
unfoldable pub make_error : Bytes → SourceLocation → Error
make_error message loc = record {
  diagnostics_ = record { severity = error; message = message; loc = loc } ∷ [];
}

unfoldable pub severity_name : DiagSeverity → Bytes
severity_name error = codes "error"
severity_name warning = codes "warning"
severity_name note = codes "note"

-- Diagnostic::format
unfoldable pub format_one : Diagnostic → Bytes
unfolding severity_name to_string
format_one d =
    let text = severity_name d.severity ++ (codes ": " ++ d.message) in
    if d.loc.line == 0
    then text
    else to_string d.loc.line ++ (codes ":" ++ (to_string d.loc.column ++ (codes ": " ++ text)))

unfoldable pub add : Diagnostic → Error → Error
add d e = record { diagnostics_ = e.diagnostics_ ++ d ∷ [] }

unfoldable pub message : Error → Bytes
message e = elim e.diagnostics_ [ [] ↦ codes "unknown error" | d ∷ ds ↦ d.message ]

-- The loop of Error::format, with what it has appended so far.
unfoldable pub format_loop : Bytes → List Diagnostic → Bytes
unfolding format_one
format_loop out [] = out
format_loop out (d ∷ ds) = format_loop (out ++ (format_one d ++ (b'\n' ∷ []))) ds

-- pop_back
unfoldable pub pop_back : Bytes → Bytes
pop_back [] = []
pop_back (c ∷ []) = []
pop_back (c ∷ s) = c ∷ pop_back s

unfoldable pub format : Error → Bytes
unfolding format_loop pop_back
format e = let out = format_loop [] e.diagnostics_ in if length out == 0 then out else pop_back out
