-- ===== src/Uri/Cuts.antt =====
-- The searches of parse_uri (src/runtime/uri.cpp): what stands on the two sides of the byte that they
-- find.
use olproff_fastsbc_hmr.Base.{
  ℕ, suc, true, [], ◌∷◌, ◌++◌, ◌==◌, ==_iff, none, some, ◌≡◌, refl, ap, inl, inr, arith, take, drop,
  Bool-cases, Option-cases,
}
use olproff_fastsbc_hmr.Text.{Bytes, find, rfind}
use olproff_fastsbc_hmr.Uri.{find_tail}
use olproff_fastsbc_hmr.Uri.Grammar.{absent, ends_host, plain_host, begins}

pub find_none : (c : ℕ) (s : Bytes) → find c s ≡ none → absent c s ≡ true
unfolding find absent
find_none c [] h = refl
find_none c (x ∷ s) h = elim (Bool-cases (x == c)) [
  | inl same ↦ absurd (ground (arith, rw (same, find) at h))
  | inr other ↦ elim (Option-cases (find c s)) [
    | inl rest ↦ rw other (find_none c s rest)
    | inr (j, there) ↦ absurd (ground (arith, rw (other, there, find) at h))
  ]
]

pub find-splits :
    (c : ℕ) (s : Bytes) (i : ℕ)
    → find c s ≡ some i
    → (s ≡ take i s ++ (c ∷ drop (suc i) s)) × (absent c (take i s) ≡ true)
unfolding find absent
find-splits c [] i h = absurd (ground arith)
find-splits c (x ∷ s) i h = elim (Bool-cases (x == c)) [
  | inl same ↦
      let here : 0 ≡ i = ground (arith, rw (same, find) at h) in
      rw (← here) (ap (λ y. y ∷ s) ((==_iff x c).0 same), refl)
  | inr other ↦ elim (Option-cases (find c s)) [
    | inl rest ↦ absurd (ground (arith, rw (other, rest, find) at h))
    | inr (j, there) ↦
        let next : suc j ≡ i = ground (arith, rw (other, there, find) at h) in
        let (splits, before) = find-splits c s j there in
        rw (← next) (ap (λ t. x ∷ t) splits, rw other before)
  ]
]

pub rfind_none : (c : ℕ) (s : Bytes) → rfind c s ≡ none → absent c s ≡ true
unfolding rfind absent
rfind_none c [] h = refl
rfind_none c (x ∷ s) h = elim (Option-cases (rfind c s)) [
  | inr (j, there) ↦ absurd (ground (arith, rw (there, rfind) at h))
  | inl rest ↦ elim (Bool-cases (x == c)) [
    | inl same ↦ absurd (ground (arith, rw (rest, same, rfind) at h))
    | inr other ↦ rw other (rfind_none c s rest)
  ]
]

pub rfind-splits :
    (c : ℕ) (s : Bytes) (i : ℕ)
    → rfind c s ≡ some i
    → (s ≡ take i s ++ (c ∷ drop (suc i) s)) × (absent c (drop (suc i) s) ≡ true)
unfolding rfind absent
rfind-splits c [] i h = absurd (ground arith)
rfind-splits c (x ∷ s) i h = elim (Option-cases (rfind c s)) [
  | inr (j, there) ↦
      let next : suc j ≡ i = ground (arith, rw (there, rfind) at h) in
      let (splits, behind) = rfind-splits c s j there in
      rw (← next) (ap (λ t. x ∷ t) splits, behind)
  | inl rest ↦ elim (Bool-cases (x == c)) [
    | inl same ↦
        let here : 0 ≡ i = ground (arith, rw (rest, same, rfind) at h) in
        rw (← here) (ap (λ y. y ∷ s) ((==_iff x c).0 same), rfind_none c s rest)
    | inr other ↦ absurd (ground (arith, rw (rest, other, rfind) at h))
  ]
]

pub find_tail_none : (s : Bytes) → find_tail s ≡ none → plain_host s ≡ true
unfolding find_tail plain_host
find_tail_none [] h = refl
find_tail_none (x ∷ s) h = elim (Bool-cases (ends_host x)) [
  | inl stop ↦ absurd (ground (arith, rw (stop, find_tail) at h))
  | inr other ↦ elim (Option-cases (find_tail s)) [
    | inl rest ↦ rw other (find_tail_none s rest)
    | inr (j, there) ↦ absurd (ground (arith, rw (other, there, find_tail) at h))
  ]
]

pub find_tail-splits :
    (s : Bytes) (i : ℕ)
    → find_tail s ≡ some i
    → (begins ends_host (drop i s) ≡ true) × (plain_host (take i s) ≡ true)
unfolding find_tail plain_host
find_tail-splits [] i h = absurd (ground arith)
find_tail-splits (x ∷ s) i h = elim (Bool-cases (ends_host x)) [
  | inl stop ↦
      let here : 0 ≡ i = ground (arith, rw (stop, find_tail) at h) in rw (← here) (stop, refl)
  | inr other ↦ elim (Option-cases (find_tail s)) [
    | inl rest ↦ absurd (ground (arith, rw (other, rest, find_tail) at h))
    | inr (j, there) ↦
        let next : suc j ≡ i = ground (arith, rw (other, there, find_tail) at h) in
        let (stops, before) = find_tail-splits s j there in rw (← next) (stops, rw other before)
  ]
]
