-- ===== src/Codegen/Grows.antt =====
-- What the tables of CppEmitter keep while rules are emitted (src/codegen/cpp_generator.cpp).
use olproff_fastsbc_hmr.Base.{
  ℕ, ◌+◌, ◌≤◌, Bool, ◌&&◌, none, some, List, [], ◌∷◌, ◌++◌, ◌==◌, if◌then◌else◌, length, ◌≡◌, refl,
  ap, ◌∙◌, inl, inr, arith, Option-cases, Bool-cases, ==_refl,
}
use olproff_fastsbc_hmr.Text.{Bytes, same_text}
use olproff_fastsbc_hmr.Text.Fold.{same_text_iff}
use olproff_fastsbc_hmr.Interp
use olproff_fastsbc_hmr.Interp.{Tables, regex_index, slot_id}
use olproff_fastsbc_hmr.Interp.Frozen.{slot_id-append, slot_id-kept, slot_for-known}
use olproff_fastsbc_hmr.Codegen.{CppEmitter, add_regex, slot_for}

regex_index-append :
    (p : Bytes) (f i : ℕ) (rs : List (Bytes × ℕ))
    → regex_index p f i rs ≡ none
    → regex_index p f i (rs ++ (p, f) ∷ []) ≡ some (i + length rs)
unfolding regex_index
regex_index-append p f i [] h = rw (((same_text_iff p p).1 refl), ==_refl f) (ap some (omega arith))
regex_index-append p f i ((q, k) ∷ rs) h = elim (Bool-cases (same_text q p && k == f)) [
  | inl same ↦ absurd (ground (arith, rw (same, regex_index) at h))
  | inr other ↦
      rw (other, regex_index)
        (regex_index-append p f (i + 1) rs (rw (other, regex_index) at h) ∙ ap some (omega arith))
]

regex_index-kept :
    (p : Bytes) (f i n : ℕ) (rs more : List (Bytes × ℕ))
    → regex_index p f i rs ≡ some n
    → regex_index p f i (rs ++ more) ≡ some n
unfolding regex_index
regex_index-kept p f i n [] more h = absurd (ground arith)
regex_index-kept p f i n ((q, k) ∷ rs) more h = elim (Bool-cases (same_text q p && k == f)) [
  | inl same ↦ rw (same, regex_index) (rw (same, regex_index) at h)
  | inr other ↦
      rw (other, regex_index)
        (regex_index-kept p f (i + 1) n rs more (rw (other, regex_index) at h))
]

-- Tables that know every name and pattern of the emitter, under its number.
abbrev pub Covers : Tables → CppEmitter → Type 0
Covers t g =
    ((k : Bytes) (id : ℕ) → slot_id k g.slots ≡ some id → slot_id k t.slots ≡ some id)
    × ((p : Bytes) (f i : ℕ)
        → regex_index p f 0 g.regexes ≡ some i
        → regex_index p f 0 t.regexes ≡ some i)

-- Each emitter's names, patterns and temporaries are the later one's.
abbrev pub Grows : CppEmitter → CppEmitter → Type 0
Grows g g' = (g.temp_ ≤ g'.temp_) × ((t : Tables) → Covers t g' → Covers t g)

pub Grows-refl : (g : CppEmitter) → Grows g g
Grows-refl g = (omega arith, (λ t c. c))

pub Grows-trans : (g1 g2 g3 : CppEmitter) → Grows g1 g2 → Grows g2 g3 → Grows g1 g3
Grows-trans g1 g2 g3 (p, f) (q, h) = (omega (arith, p, q), (λ t c. f t (h t c)))

pub slot_for-Grows : (name : Bytes) (g : CppEmitter) → Grows g (slot_for name g).1
unfolding slot_for
slot_for-Grows name g = elim (Option-cases (slot_id name g.slots)) [
  | inl new ↦
      rw (new, slot_for)
        (omega arith, (λ t c. ((λ k id h. c.0 k id (slot_id-kept k id g.slots _ h)), c.1)))
  | inr (id, known) ↦ rw (known, slot_for) (Grows-refl g)
]

pub add_regex-Grows : (p : Bytes) (ci : Bool) (g : CppEmitter) → Grows g (add_regex p ci g).1
unfolding add_regex
add_regex-Grows p ci g = elim (Option-cases (regex_index p (if ci then 1 else 0) 0 g.regexes)) [
  | inl new ↦
      rw (new, add_regex)
        (
          omega arith,
          (λ t c. (c.0, (λ q f i h. c.1 q f i (regex_index-kept q f 0 i g.regexes _ h)))),
        )
  | inr (id, known) ↦ rw (known, add_regex) (Grows-refl g)
]

slot_found :
    (name : Bytes) (g : CppEmitter)
    → slot_id name (slot_for name g).1.slots ≡ some (slot_for name g).0
unfolding slot_for
slot_found name g = elim (Option-cases (slot_id name g.slots)) [
  | inl new ↦ rw (new, slot_for) (slot_id-append name (length g.slots) g.slots new)
  | inr (id, known) ↦ rw (known, slot_for) known
]

regex_found :
    (p : Bytes) (ci : Bool) (g : CppEmitter)
    → regex_index p (if ci then 1 else 0) 0 (add_regex p ci g).1.regexes ≡ some (add_regex p ci g).0
unfolding add_regex
regex_found p ci g = elim (Option-cases (regex_index p (if ci then 1 else 0) 0 g.regexes)) [
  | inl new ↦
      rw (new, add_regex)
        (regex_index-append p (if ci then 1 else 0) 0 g.regexes new ∙ ap some (omega arith))
  | inr (id, known) ↦ rw (known, add_regex) known
]

pub slot_for-Covers :
    (name : Bytes) (t : Tables) (g : CppEmitter)
    → Covers t (slot_for name g).1
    → Interp.slot_for name t ≡ ((slot_for name g).0, t)
slot_for-Covers name t g c = slot_for-known name t _ (c.0 name _ (slot_found name g))

pub add_regex-Covers :
    (p : Bytes) (ci : Bool) (t : Tables) (g : CppEmitter)
    → Covers t (add_regex p ci g).1
    → Interp.add_regex p ci t ≡ ((add_regex p ci g).0, t)
unfolding Interp.add_regex
add_regex-Covers p ci t g c =
    rw (c.1 p (if ci then 1 else 0) _ (regex_found p ci g), Interp.add_regex) refl
