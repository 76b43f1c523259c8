-- ===== src/Text/Fold.antt =====
-- Comparison without regard to case, and the lowered texts.
use mathlib.Core.Bool.{false≢true}
use olproff_fastsbc_hmr.Base.{
  suc, true, false, List, [], ◌∷◌, ◌≡◌, refl, sym, ap, ◌∙◌, ◌↔◌, inl, inr, arith, ◌==◌, ==_iff,
  length, map, Bool-cases,
}
use olproff_fastsbc_hmr.Text.{Bytes, to_lower, same_folded, iequals, same_text}

pub same_text_iff : (s t : Bytes) → (same_text s t ≡ true) ↔ (s ≡ t)
unfolding same_text
same_text_iff [] [] = ground arith
same_text_iff [] (d ∷ t) = ground arith
same_text_iff (c ∷ s) [] = ground arith
same_text_iff (c ∷ s) (d ∷ t) = ground (arith, same_text_iff s t)

pub same_folded_iff :
    (a b : Bytes)
    → length a ≡ length b
    → (same_folded a b ≡ true) ↔ (map to_lower a ≡ map to_lower b)
unfolding same_folded
same_folded_iff [] [] h = (λ e. refl, λ e. refl)
same_folded_iff [] (y ∷ b) h = absurd (omega arith)
same_folded_iff (x ∷ a) [] h = absurd (omega arith)
same_folded_iff (x ∷ a) (y ∷ b) h = ground (arith, same_folded_iff a b)

pub length-map {ℓ κ} :
    {A : Type ℓ} {B : Type κ} (f : A → B) (xs : List A) → length (map f xs) ≡ length xs
length-map f [] = refl
length-map f (x ∷ xs) = ap suc (length-map f xs)

pub iequals_iff : (a b : Bytes) → (iequals a b ≡ true) ↔ (map to_lower a ≡ map to_lower b)
unfolding iequals
iequals_iff a b = elim (Bool-cases (length a == length b)) [
  | inl same ↦ rw same (same_folded_iff a b ((==_iff _ _).0 same))
  | inr differs ↦
      rw differs (λ e. cc, λ e. absurd (false≢true (sym differs ∙ (==_iff _ _).1 (lengths e))))
]
  where
    lengths : map to_lower a ≡ map to_lower b → length a ≡ length b
    lengths e = sym (length-map to_lower a) ∙ (ap length e ∙ length-map to_lower b)

pub iequals_refl : (a : Bytes) → iequals a a ≡ true
iequals_refl a = (iequals_iff a a).1 refl

-- Texts that compare equal compare alike with any other.
pub iequals_cong : (a b c : Bytes) → iequals a b ≡ true → iequals a c ≡ iequals b c
iequals_cong a b c h = elim (Bool-cases (iequals a c)) [
  | inl e ↦ e ∙ sym ((iequals_iff b c).1 (sym ((iequals_iff a b).0 h) ∙ (iequals_iff a c).0 e))
  | inr ne ↦ elim (Bool-cases (iequals b c)) [
    | inl e ↦
        let t : iequals a c ≡ true =
          (iequals_iff a c).1 ((iequals_iff a b).0 h ∙ (iequals_iff b c).0 e) in
        t ∙ sym e
    | inr ne' ↦ ne ∙ sym ne'
  ]
]

pub iequals_apart : (a b c : Bytes) → iequals a b ≡ false → iequals b c ≡ true → iequals a c ≡ false
iequals_apart a b c h e = elim (Bool-cases (iequals a c)) [
  | inl same ↦
      let t : iequals a b ≡ true =
        (iequals_iff a b).1 ((iequals_iff a c).0 same ∙ sym ((iequals_iff b c).0 e)) in
      absurd (false≢true (sym h ∙ t))
  | inr ne ↦ ne
]
