-- ===== src/Match/Text.antt =====
-- The textual matchers of src/runtime/matchers.cpp, against equality of texts.
use olproff_fastsbc_hmr.Base.{
  true, false, ◌≡◌, sym, ap, ◌∙◌, ◌↔◌, inl, inr, ◌==◌, ==_iff, length, map, Bool-cases,
}
use mathlib.Core.Bool.{false≢true}
use olproff_fastsbc_hmr.Text.{Bytes, to_lower}
use olproff_fastsbc_hmr.Text.Fold.{same_text_iff, same_folded_iff, length-map}
use olproff_fastsbc_hmr.Match.{match_exact}

-- match_exact is equality of the two texts; without regard to case it is equality of the texts with
-- their ASCII letters lowered.
pub match_exact_iff :
    (subject pattern : Bytes)
    → ((match_exact subject pattern false ≡ true) ↔ (subject ≡ pattern))
      × ((match_exact subject pattern true ≡ true) ↔ (map to_lower subject ≡ map to_lower pattern))
unfolding match_exact
match_exact_iff s p = elim (Bool-cases (length s == length p)) [
  | inl same ↦ rw same (same_text_iff s p, same_folded_iff s p ((==_iff _ _).0 same))
  | inr differs ↦ rw differs (
    (λ e. cc, λ e. absurd (false≢true (sym differs ∙ (==_iff _ _).1 (ap length e)))),
    (
      λ e. cc,
      λ e. absurd (
          false≢true (
            sym differs
            ∙ (==_iff _ _).1
                (sym (length-map to_lower s) ∙ (ap length e ∙ length-map to_lower p)))),
    ),
  )
]
