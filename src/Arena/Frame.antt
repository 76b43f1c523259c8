-- ===== src/Arena/Frame.antt =====
-- What an allocation keeps, and what a copy into the arena reads back.
use olproff_fastsbc_hmr.Base.{
  ℕ, zero, suc, ◌+◌, ◌-◌, ◌≤◌, ◌<◌, ◌^◌, none, some, [], ◌∷◌, ◌≡◌, refl, sym, ◌∙◌, ◌⊎◌, inl, inr,
  arith, ltb, ◌==◌, length, take_all, nil_of_length, ==_iff, u32_small, add32_small, sub32_small,
  Bool-cases, ltb_false→le, ltb→lt, ap₂,
}
use olproff_fastsbc_hmr.Text.{Bytes}
use olproff_fastsbc_hmr.Arena.{
  Ptr, null, raw, arena, host, HmrStr, StringView, HmrArena, capacity, remaining, alloc, write,
  memcpy, dup, read, sv, null_str,
}

pub write_below : (off : ℕ) (t : Bytes) (f : ℕ → ℕ) (i : ℕ) → i < off → write off t f i ≡ f i
unfolding write
write_below off [] f i h = refl
write_below off (c ∷ t) f i h = ground (arith, write_below (suc off) t f i)

pub read-write_below :
    (o n off : ℕ) (t : Bytes) (f : ℕ → ℕ) → o + n ≤ off → read (write off t f) o n ≡ read f o n
unfolding read
read-write_below o zero off t f h = refl
read-write_below o (suc n) off t f h =
    ap₂ ◌∷◌ (write_below off t f o (omega arith)) (read-write_below (suc o) n off t f (omega arith))

read-suc :
    (off o n : ℕ) (c : ℕ) (t : Bytes) (f : ℕ → ℕ)
    → off < o
    → read (write off (c ∷ t) f) o n ≡ read (write (suc off) t f) o n
unfolding read write
read-suc off o zero c t f h = refl
read-suc off o (suc n) c t f h = ap₂ ◌∷◌ (ground arith) (read-suc off (suc o) n c t f (omega arith))

pub read-write_same : (off : ℕ) (t : Bytes) (f : ℕ → ℕ) → read (write off t f) off (length t) ≡ t
unfolding read
read-write_same off [] f = refl
read-write_same off (c ∷ t) f =
    ap₂ ◌∷◌ (unfold write in ground arith)
      (read-suc off (suc off) (length t) c t f (omega arith) ∙ read-write_same (suc off) t f)

-- The bump pointer is within the buffer.
abbrev pub IsFit : HmrArena → Type 0
IsFit a = a.used ≤ capacity

-- The string lies in the packet or in the used part of the arena.
abbrev pub InMemory : Bytes → HmrArena → HmrStr → Type 0
InMemory packet a s = elim s.ptr [
  | null ↦ s.len ≡ 0
  | raw o ↦ o + s.len ≤ length packet
  | arena o ↦ o + s.len ≤ a.used
  | host b ↦ s.len ≤ length b
]

-- What a step on the arena leaves alone: it stays in bounds, nothing is taken back, and the bytes in
-- use are as they were.
pub record Extends (a a' : HmrArena) : Type 0 where
  pub fit : IsFit a'
  pub grows : a.used ≤ a'.used
  pub keeps : (o n : ℕ) → o + n ≤ a.used → read a'.buffer o n ≡ read a.buffer o n

pub Extends-refl : {a : HmrArena} → IsFit a → Extends a a
Extends-refl h = record { fit = h; grows = omega arith; keeps = λ o n k. refl }

pub Extends-trans : {a b c : HmrArena} → Extends a b → Extends b c → Extends a c
Extends-trans e f = record {
  fit = f.fit;
  grows = omega (arith, e.grows, f.grows);
  keeps = λ o n k. f.keeps o n (omega (arith, e.grows)) ∙ e.keeps o n k;
}

-- A string of pointer `p` and length `n`.
abbrev pub at : Ptr → ℕ → HmrStr
at p n = record { ptr = p; len = n }

sv-at :
    {a a' : HmrArena} (packet : Bytes) (p : Ptr) (n : ℕ)
    → Extends a a'
    → InMemory packet a (at p n)
    → sv packet a' (at p n) ≡ sv packet a (at p n)
unfolding sv
sv-at packet (arena o) n e h = e.keeps o n h
sv-at packet p n e h = refl

-- Strings that were handed out read the same behind the step.
pub sv-Extends :
    {a a' : HmrArena} (packet : Bytes) (s : HmrStr)
    → Extends a a'
    → InMemory packet a s
    → sv packet a' s ≡ sv packet a s
sv-Extends packet s e h = sv-at packet s.ptr s.len e h

InMemory-at :
    {a a' : HmrArena} (packet : Bytes) (p : Ptr) (n : ℕ)
    → Extends a a'
    → InMemory packet a (at p n)
    → InMemory packet a' (at p n)
InMemory-at packet (arena o) n e h = omega (arith, e.grows)
InMemory-at packet null n e h = h
InMemory-at packet (raw _) n e h = h
InMemory-at packet (host _) n e h = h

pub InMemory-Extends :
    {a a' : HmrArena} (packet : Bytes) (s : HmrStr)
    → Extends a a'
    → InMemory packet a s
    → InMemory packet a' s
InMemory-Extends packet s e h = InMemory-at packet s.ptr s.len e h

-- The two results of an allocation.
pub alloc-cases :
    (n : ℕ) (a : HmrArena)
    → IsFit a
    → ((capacity < a.used + n) × (alloc n a ≡ (none, a)))
      ⊎ ((a.used + n ≤ capacity) × (alloc n a ≡ (some a.used, record a { used = a.used + n })))
unfolding alloc
alloc-cases n a h = elim (Bool-cases (ltb (remaining a) n)) [
  | inl full ↦ inl (omega (arith, ltb→lt (remaining a) n full, room), rw full)
  | inr fits ↦
      let le : a.used + n ≤ capacity = omega (arith, ltb_false→le (remaining a) n fits, room) in
      inr (le, rw (fits, add32_small a.used n (omega arith)))
]
  where
    room : remaining a ≡ capacity - a.used
    room = sub32_small capacity a.used h (omega arith)

-- A copy to the end of the used part.
pub memcpy-Extends :
    (a : HmrArena) (t : Bytes)
    → a.used + length t ≤ capacity
    → Extends a (memcpy a.used t (record a { used = a.used + length t }))
unfolding memcpy
memcpy-Extends a t h = record {
  fit = h;
  grows = omega arith;
  keeps = λ o n k. read-write_below o n a.used t a.buffer k;
}

pub read-memcpy :
    (a : HmrArena) (t : Bytes) (u : ℕ)
    → read (memcpy a.used t (record a { used = u })).buffer a.used (length t) ≡ t
unfolding memcpy
read-memcpy a t u = read-write_same a.used t a.buffer

-- The copy succeeded: it is in the arena (or empty), and shows the text that was copied.
pub record Copied (packet : Bytes) (a : HmrArena) (t : Bytes) (d : HmrStr) (a' : HmrArena)
    : Type 0 where
  pub extends : Extends a a'
  pub at_most : a'.used ≤ a.used + length t
  pub in_memory : InMemory packet a' d
  pub shows : sv packet a' d ≡ t

-- There was no room: a null string, and the arena as it was.
pub record Full (a : HmrArena) (t : Bytes) (d : HmrStr) (a' : HmrArena) : Type 0 where
  pub no_room : capacity < a.used + length t
  pub is_null : d ≡ null_str
  pub same : a' ≡ a

pub Copied-at :
    (packet : Bytes) (t : Bytes) (a : HmrArena)
    → a.used + length t ≤ capacity
    → Copied packet a t
        (at (arena a.used) (length t))
        (memcpy a.used t (record a { used = a.used + length t }))
Copied-at packet t a h = record {
  extends = memcpy-Extends a t h;
  at_most = unfold memcpy in omega arith;
  in_memory = unfold memcpy in omega arith;
  shows = unfold sv in read-memcpy a t (a.used + length t);
}

sv-empty : (packet : Bytes) (a : HmrArena) (p : Ptr) → sv packet a (at p 0) ≡ []
unfolding sv
sv-empty packet a null = refl
sv-empty packet a _ = refl

-- What dup gives: the copy, or nothing changed and no room for it.
pub dup-cases :
    (packet : Bytes) (s : StringView) (a : HmrArena)
    → IsFit a
    → length s.text < 2 ^ 32
    → InMemory packet a (at s.ptr (length s.text))
    → Copied packet a s.text (dup s a).0 (dup s a).1 ⊎ Full a s.text (dup s a).0 (dup s a).1
unfolding dup
dup-cases packet s a fit small inside =
    rw (u32_small (length s.text) small) (elim (Bool-cases (length s.text == 0)) [
      | inl nil ↦
          let e : length s.text ≡ 0 = (==_iff (length s.text) 0).0 nil in
          rw (nil) (
            inl (record {
              extends = Extends-refl fit;
              at_most = omega arith;
              in_memory = rw e at inside;
              shows = sv-empty packet a s.ptr ∙ sym (nil_of_length s.text e);
            }))
      | inr more ↦ rw more (elim (alloc-cases (length s.text) a fit) [
        | inl full ↦ rw full.1 (inr (record { no_room = full.0; is_null = refl; same = refl }))
        | inr fits ↦
            rw (fits.1, take_all (length s.text) s.text (omega arith))
              (inl (Copied-at packet s.text a fits.0))
      ])
    ])
