-- ===== src/Interp/Slots.antt =====
-- The slot table of src/interp/interpreter.cpp: its numbering.
use Prim.{Unit, tt}
use olproff_fastsbc_hmr.Base.{
  ℕ, ◌+◌, ◌≤◌, ◌<◌, false, some, List, [], ◌∷◌, ◌++◌, ◌≡◌, sym, ◌∙◌, inl, inr, arith, length,
  Bool-cases, Option-cases,
}
use olproff_fastsbc_hmr.Text.{Bytes, same_text}
use olproff_fastsbc_hmr.Text.Fold.{same_text_iff}
use olproff_fastsbc_hmr.Interp.{Tables, slot_id, slot_for}
use olproff_fastsbc_hmr.Interp.Frozen.{register, slot_for_lem}

-- Each slot has its position for its number, counted from `i`.
abbrev pub Numbered : ℕ → List (Bytes × ℕ) → Type 0
Numbered i [] = Unit
Numbered i ((name, id) ∷ slots) = (id ≡ i) × Numbered (i + 1) slots

Numbered-append :
    (i : ℕ) (slots : List (Bytes × ℕ)) (name : Bytes) (id : ℕ)
    → id ≡ i + length slots
    → Numbered i slots
    → Numbered i (slots ++ (name, id) ∷ [])
Numbered-append i [] name id e h = (omega (arith, e), tt)
Numbered-append i ((n, j) ∷ slots) name id e h =
    (h.0, Numbered-append (i + 1) slots name id (omega (arith, e)) h.1)

slot_id-bounds :
    (name : Bytes) (i : ℕ) (slots : List (Bytes × ℕ)) (id : ℕ)
    → Numbered i slots
    → slot_id name slots ≡ some id
    → (i ≤ id) × (id < i + length slots)
unfolding slot_id
slot_id-bounds name i [] id h e = absurd (ground arith)
slot_id-bounds name i ((n, j) ∷ slots) id h e = elim (Bool-cases (same_text n name)) [
  | inl same ↦
      let f : j ≡ id = ground (arith, rw (same, slot_id) at e) in
      (omega (arith, h.0, f), omega (arith, h.0, f))
  | inr other ↦
      let b = slot_id-bounds name (i + 1) slots id h.1 (rw (other, slot_id) at e) in
      (omega (arith, b.0), omega (arith, b.1))
]

slot_id-distinct :
    (k k' : Bytes) (i : ℕ) (slots : List (Bytes × ℕ)) (id : ℕ)
    → Numbered i slots
    → slot_id k slots ≡ some id
    → slot_id k' slots ≡ some id
    → k ≡ k'
unfolding slot_id
slot_id-distinct k k' i [] id h e e' = absurd (ground arith)
slot_id-distinct k k' i ((n, j) ∷ slots) id h e e' = elim (Bool-cases (same_text n k)) [
  | inl same ↦ elim (Bool-cases (same_text n k')) [
    | inl same' ↦ sym ((same_text_iff n k).0 same) ∙ (same_text_iff n k').0 same'
    | inr other' ↦
        let f : j ≡ id = ground (arith, rw (same, slot_id) at e) in
        let b = slot_id-bounds k' (i + 1) slots id h.1 (rw (other', slot_id) at e') in
        absurd (omega (arith, h.0, f, b.0))
  ]
  | inr other ↦ elim (Bool-cases (same_text n k')) [
    | inl same' ↦
        let f : j ≡ id = ground (arith, rw (same', slot_id) at e') in
        let b = slot_id-bounds k (i + 1) slots id h.1 (rw (other, slot_id) at e) in
        absurd (omega (arith, h.0, f, b.0))
    | inr other' ↦
        slot_id-distinct k k' (i + 1) slots id h.1 (rw (other, slot_id) at e)
          (rw (other', slot_id) at e')
  ]
]

slot_for-Numbered :
    (name : Bytes) (t : Tables)
    → t.frozen ≡ false
    → Numbered 0 t.slots
    → Numbered 0 (slot_for name t).1.slots
unfolding slot_for
slot_for-Numbered name t f h = elim (Option-cases (slot_id name t.slots)) [
  | inl new ↦
      rw (new, slot_for) (rw f (Numbered-append 0 t.slots name (length t.slots) (omega arith) h))
  | inr (id, known) ↦ rw (known, slot_for) h
]

register-Numbered :
    (names : List Bytes) (t : Tables)
    → t.frozen ≡ false
    → Numbered 0 t.slots
    → Numbered 0 (register names t).slots
unfolding register
register-Numbered [] t f h = h
register-Numbered (n ∷ names) t f h =
    let (_, _, still) = slot_for_lem n t f in
    register-Numbered names (slot_for n t).1 still (slot_for-Numbered n t f h)

-- On open tables with slots numbered in order, as the empty ones are: behind the registration of any
-- names, a slot that the table gives for a name is below the number of slots, and two names with the
-- same slot are the same name.
pub register-distinct :
    (names : List Bytes) (t : Tables) (k k' : Bytes) (id : ℕ)
    → t.frozen ≡ false
    → Numbered 0 t.slots
    → slot_id k (register names t).slots ≡ some id
    → slot_id k' (register names t).slots ≡ some id
    → (id < length (register names t).slots) × (k ≡ k')
register-distinct names t k k' id f h e e' =
    let n = register-Numbered names t f h in
    (
      omega (arith, (slot_id-bounds k 0 (register names t).slots id n e).1),
      slot_id-distinct k k' 0 (register names t).slots id n e e',
    )
