-- ===== src/Diagnostics/Format.antt =====
-- The text of an error of include/hmr/diagnostics/diagnostics.hpp.
use olproff_fastsbc_hmr.Base.{
  ℕ, List, [], ◌∷◌, ◌++◌, ◌==◌, if◌then◌else◌, length, ◌≡◌, refl, ap, sym, ◌∙◌, append_assoc,
  suc-==_false, false,
}
use olproff_fastsbc_hmr.Text.{Bytes}
use olproff_fastsbc_hmr.Diagnostics.{
  Diagnostic, Error, format_one, add, message, format_loop, pop_back, format,
}

-- One text for each diagnostic, with a line end between two of them.
unfoldable pub lines_of : List Diagnostic → Bytes
lines_of [] = []
lines_of (d ∷ []) = format_one d
lines_of (d ∷ ds) = format_one d ++ (b'\n' ∷ lines_of ds)

pop_back-append : (s : Bytes) (c : ℕ) → pop_back (s ++ c ∷ []) ≡ s
unfolding pop_back
pop_back-append [] c = refl
pop_back-append (x ∷ []) c = refl
pop_back-append (x ∷ y ∷ s) c = ap (λ t. x ∷ t) (pop_back-append (y ∷ s) c)

-- The loop leaves one line end behind the lines.
format_loop-lines_of :
    (out : Bytes) (d : Diagnostic) (ds : List Diagnostic)
    → format_loop out (d ∷ ds) ≡ (out ++ lines_of (d ∷ ds)) ++ (b'\n' ∷ [])
unfolding format_loop lines_of
format_loop-lines_of out d [] = sym (append_assoc out (format_one d) (b'\n' ∷ []))
format_loop-lines_of out d (e ∷ ds) =
    let first = format_one d ++ (b'\n' ∷ []) in
    let rest = lines_of (e ∷ ds) in
    format_loop-lines_of (out ++ first) e ds
    ∙ ap (λ s. s ++ (b'\n' ∷ []))
        (append_assoc out first rest
          ∙ ap (λ s. out ++ s) (append_assoc (format_one d) (b'\n' ∷ []) rest))

nonempty : (s : Bytes) (c : ℕ) → (length (s ++ c ∷ []) == 0) ≡ false
nonempty [] c = refl
nonempty (x ∷ s) c = suc-==_false (length (s ++ c ∷ []))

format-lines_of : (ds : List Diagnostic) → format (record { diagnostics_ = ds }) ≡ lines_of ds
unfolding format format_loop lines_of
format-lines_of [] = refl
format-lines_of (d ∷ ds) =
    rw (format_loop-lines_of [] d ds, nonempty (lines_of (d ∷ ds)) b'\n')
      (pop_back-append (lines_of (d ∷ ds)) b'\n')

-- For every error and further diagnostic: the error with that diagnostic prints the lines of all of
-- them, the new one last, with a line end only between two; its message is the new one's if the error
-- had none, and else stays.
pub format-add :
    (d : Diagnostic) (e : Error)
    → (format (add d e) ≡ lines_of (e.diagnostics_ ++ d ∷ []))
      × (message (add d e) ≡ (if length e.diagnostics_ == 0 then d.message else message e))
unfolding add message
format-add d e = (
  format-lines_of (e.diagnostics_ ++ d ∷ []),
  elim e.diagnostics_
      as (λ ds.
        let e' : Error = record { diagnostics_ = ds } in
        message (add d e') ≡ (if length ds == 0 then d.message else message e')) [
          | [] ↦ refl
          | x ∷ xs ↦ rw (suc-==_false (length xs)) refl
        ],
)
