-- ===== src/Uri/Angled.antt =====
-- The display name and the brackets of a value, as parse_uri (src/runtime/uri.cpp) reads them.
use mathlib.Core.Bool.{true≢false}
use olproff_fastsbc_hmr.Base.{
  ℕ, zero, suc, ◌+◌, ◌-◌, Bool, true, false, ◌&&◌, [], ◌∷◌, ◌++◌, leb, ◌==◌, ==_iff, ◌≡◌, refl, sym,
  ap, ◌∙◌, inl, inr, arith, length, length-drop, length-take, get_or, take, drop, append-nil,
  Bool-cases, Option-cases,
}
use olproff_fastsbc_hmr.Text.{Bytes, find, find_from, trim, View, view_substr}
use olproff_fastsbc_hmr.Text.Bounds.{find_lt}
use olproff_fastsbc_hmr.Uri.{quoted, display_of, angle}
use olproff_fastsbc_hmr.Uri.Grammar.{Unquoted, InnerOf}
use olproff_fastsbc_hmr.Uri.Cuts.{find_none, find-splits}

pub from_suc : (n : ℕ) (s : Bytes) → drop (n + 1) s ≡ drop (suc n) s
from_suc n s = let same : n + 1 ≡ suc n = omega arith in ap (λ k. drop k s) same

pub take_all : (n : ℕ) (s : Bytes) → n ≡ length s → take n s ≡ s
take_all n [] e = rw e refl
take_all n (x ∷ s) e = rw e (ap (λ t. x ∷ t) (take_all (length s) s refl))

last-splits : (c n : ℕ) (s : Bytes) → length s ≡ suc n → get_or s n 0 ≡ c → s ≡ take n s ++ (c ∷ [])
last-splits c n [] e h = absurd (omega arith)
last-splits c zero (x ∷ []) e h = ap (λ y. y ∷ []) h
last-splits c zero (x ∷ y ∷ s) e h = absurd (omega arith)
last-splits c (suc n) (x ∷ s) e h = ap (λ t. x ∷ t) (last-splits c n s (omega arith) h)

both : (a b : Bool) → (a && b) ≡ true → (a ≡ true) × (b ≡ true)
both true b h = (refl, h)
both false b h = absurd (true≢false (sym h))

quoted-splits :
    (s : Bytes) → quoted s ≡ true → s ≡ b'"' ∷ (take (length s - 2) (drop 1 s) ++ (b'"' ∷ []))
quoted-splits [] q = absurd (ground arith)
quoted-splits (x ∷ []) q = absurd (ground arith)
quoted-splits (x ∷ y ∷ s) q =
    let size : length (x ∷ y ∷ s) - 2 ≡ length s = omega arith in
    let last : length (x ∷ y ∷ s) - 1 ≡ suc (length s) = omega arith in
    let (opens, back) =
      both (leb 2 (length (x ∷ y ∷ s)) && x == b'"')
        (get_or (x ∷ y ∷ s) (length (x ∷ y ∷ s) - 1) 0 == b'"') q in
    let (long, front) = both (leb 2 (length (x ∷ y ∷ s))) (x == b'"') opens in
    let back' = rw last at back in
    rw (size, (==_iff x b'"').0 front)
      (ap (λ t. b'"' ∷ t)
        (last-splits b'"' (length s) (y ∷ s) refl
          ((==_iff (get_or (y ∷ s) (length s) 0) b'"').0 back')))

display_of-Unquoted : (v : View) → Unquoted (trim v.text) (display_of v).text
unfolding display_of trim
display_of-Unquoted v = elim (Bool-cases (quoted (trim v.text))) [
  | inl q ↦ inl (rw q (quoted-splits (trim v.text) q))
  | inr plain ↦ inr (rw plain refl, plain)
]

pub angle-InnerOf :
    (value : Bytes)
    → InnerOf value
        (angle value).angled
        (angle value).display
        (angle value).addr_start
        (angle value).inner.text
unfolding angle find_from
angle-InnerOf value = elim (Option-cases (find b'<' value)) [
  | inl none_ ↦ rw (none_, angle) (refl, find_none b'<' value none_, refl, refl)
  | inr (lt, found) ↦
      let (splits, before) = find-splits b'<' value lt found in
      let unquoted = display_of-Unquoted (view_substr (record { off = 0; text = value }) 0 lt) in
      let start : lt + 1 ≡ suc (length (take lt value)) =
        omega (arith, length-take lt value, find_lt b'<' value lt found) in
      elim (Option-cases (find b'>' (drop (lt + 1) value))) [
        | inl open_ ↦
            let all : take (length value - (lt + 1)) (drop (lt + 1) value) ≡ drop (lt + 1) value =
              take_all _ _ (sym (length-drop (lt + 1) value)) in
            let ends = sym (from_suc lt value) ∙ sym (append-nil (drop (lt + 1) value)) in
            rw (found, open_, angle, all)
              (
                take lt value,
                [],
                splits ∙ ap (λ t. take lt value ++ (b'<' ∷ t)) ends,
                before,
                find_none b'>' (drop (lt + 1) value) open_,
                inl refl,
                unquoted,
                start,
              )
        | inr (k, close_) ↦
            let size : lt + 1 + k - (lt + 1) ≡ k = omega arith in
            let (ends, inside) = find-splits b'>' (drop (lt + 1) value) k close_ in
            rw (found, close_, angle, size)
              (
                take lt value,
                b'>' ∷ drop (suc k) (drop (lt + 1) value),
                splits ∙ ap (λ t. take lt value ++ (b'<' ∷ t)) (sym (from_suc lt value) ∙ ends),
                before,
                inside,
                inr refl,
                unquoted,
                start,
              )
      ]
]
