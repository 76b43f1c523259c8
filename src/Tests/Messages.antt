-- ===== src/Tests/Messages.antt =====
-- An error with two diagnostics.
use olproff_fastsbc_hmr.Base.{[], ◌∷◌, ◌++◌, ◌≡◌, refl, ◌==◌, length, if◌then◌else◌}
use olproff_fastsbc_hmr.Text.{codes}
use olproff_fastsbc_hmr.Diagnostics.{Diagnostic, DiagSeverity, Error, add, message, format}
use olproff_fastsbc_hmr.Diagnostics.Format.{lines_of, format-add}

abbrev first : Diagnostic
first = record {
  severity = DiagSeverity.error;
  message = codes "bad rule";
  loc = record { line = 12; column = 3 };
}

abbrev second : Diagnostic
second = record {
  severity = DiagSeverity.note;
  message = codes "see above";
  loc = record { line = 0; column = 0 };
}

abbrev one : Error
one = record { diagnostics_ = first ∷ [] }

two_lines : format (add second one) ≡ codes "12:3: error: bad rule\nnote: see above"
unfolding format add
two_lines = refl

format-add_example :
    (format (add second one) ≡ lines_of (one.diagnostics_ ++ second ∷ []))
    × (message (add second one)
        ≡ (if length (one.diagnostics_) == 0 then second.message else message one))
format-add_example = format-add second one
