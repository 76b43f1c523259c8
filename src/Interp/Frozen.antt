-- ===== src/Interp/Frozen.antt =====
-- The tables of src/interp/interpreter.cpp behind the scan.
use olproff_fastsbc_hmr.Base.{
  ℕ, true, false, none, some, List, [], ◌∷◌, ◌++◌, ◌≡◌, refl, inl, inr, arith, length, Bool-cases,
  Option-cases,
}
use olproff_fastsbc_hmr.Text.{Bytes, same_text}
use olproff_fastsbc_hmr.Text.Fold.{same_text_iff}
use olproff_fastsbc_hmr.Interp.{Tables, slot_id, slot_for}

-- The end of the scan.
abbrev pub freeze : Tables → Tables
freeze t = record t { frozen = true }

same_text_refl : (s : Bytes) → same_text s s ≡ true
same_text_refl s = (same_text_iff s s).1 refl

pub slot_id-append :
    (name : Bytes) (id : ℕ) (slots : List (Bytes × ℕ))
    → slot_id name slots ≡ none
    → slot_id name (slots ++ (name, id) ∷ []) ≡ some id
unfolding slot_id
slot_id-append name id [] h = rw (same_text_refl name) refl
slot_id-append name id ((n, i) ∷ slots) h = elim (Bool-cases (same_text n name)) [
  | inl same ↦ absurd (ground (arith, rw (same, slot_id) at h))
  | inr other ↦ rw other (slot_id-append name id slots (rw (other, slot_id) at h))
]

-- A name that is registered keeps its slot.
pub slot_id-kept :
    (name : Bytes) (id : ℕ) (slots more : List (Bytes × ℕ))
    → slot_id name slots ≡ some id
    → slot_id name (slots ++ more) ≡ some id
unfolding slot_id
slot_id-kept name id [] more h = absurd (ground arith)
slot_id-kept name id ((n, i) ∷ slots) more h = elim (Bool-cases (same_text n name)) [
  | inl same ↦ rw same (rw (same, slot_id) at h)
  | inr other ↦ rw other (slot_id-kept name id slots more (rw (other, slot_id) at h))
]

-- Behind slot_for on tables that are open, the name has the slot that was handed out, and every name
-- that had a slot keeps it.
pub slot_for_lem :
    (name : Bytes) (t : Tables)
    → t.frozen ≡ false
    → (slot_id name (slot_for name t).1.slots ≡ some (slot_for name t).0)
      × ((k : Bytes) (id : ℕ)
          → slot_id k t.slots ≡ some id
          → slot_id k (slot_for name t).1.slots ≡ some id)
      × ((slot_for name t).1.frozen ≡ false)
unfolding slot_for
slot_for_lem name t open_ = elim (Option-cases (slot_id name t.slots)) [
  | inl new ↦
      rw (new, slot_for)
        (rw open_ (
          slot_id-append name (length t.slots) t.slots new,
          (λ k id h. slot_id-kept k id t.slots _ h),
          refl,
        ))
  | inr (id, known) ↦ rw (known, slot_for) (known, (λ k id h. h), open_)
]

-- Every further name that the scan registers.
unfoldable pub register : List Bytes → Tables → Tables
unfolding slot_for
register [] t = t
register (n ∷ ns) t = register ns (slot_for n t).1

register-kept :
    (ns : List Bytes) (t : Tables) (k : Bytes) (id : ℕ)
    → t.frozen ≡ false
    → slot_id k t.slots ≡ some id
    → slot_id k (register ns t).slots ≡ some id
unfolding register
register-kept [] t k id f h = h
register-kept (n ∷ ns) t k id f h =
    let (_, keeps, still) = slot_for_lem n t f in
    register-kept ns (slot_for n t).1 k id still (keeps k id h)

pub slot_for-known :
    (name : Bytes) (t : Tables) (id : ℕ)
    → slot_id name t.slots ≡ some id
    → slot_for name t ≡ (id, t)
unfolding slot_for
slot_for-known name t id h = rw (h, slot_for) refl

-- On tables that are open: the slot that slot_for hands out for a name is the one that it gives for
-- that name on the frozen tables, whatever names are registered in between; and the frozen tables
-- stay as they are.
pub slot_for-frozen :
    (name : Bytes) (later : List Bytes) (t : Tables)
    → t.frozen ≡ false
    → (let (id, t') = slot_for name t in
        let tables = freeze (register later t') in slot_for name tables ≡ (id, tables))
slot_for-frozen name later t f =
    let r = slot_for name t in
    let (found, _, still) = slot_for_lem name t f in
    slot_for-known name (freeze (register later r.1)) r.0
      (register-kept later r.1 name r.0 still found)
