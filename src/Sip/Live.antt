-- ===== src/Sip/Live.antt =====
-- The live headers of a message as bytes, and how the array operations act on them.
use olproff_fastsbc_hmr.Base.{
  false, ℕ, zero, suc, none, some, List, [], ◌∷◌, ◌++◌, ◌≡◌, refl, arith, if◌then◌else◌, get_or,
  length, length-set, inl, inr, Bool-cases,
}
use mathlib.Core.Option
use olproff_fastsbc_hmr.Text.{Bytes}
use olproff_fastsbc_hmr.Arena.{HmrStr, HmrArena, sv}
use olproff_fastsbc_hmr.Arena.Frame.{InMemory, Extends, sv-Extends, InMemory-Extends}
use olproff_fastsbc_hmr.Sip.{Header, no_header, is_match, find_in, set_value, delete_in}
use olproff_fastsbc_hmr.Sip.Spec.{Headers, first_value, set_first, remove, has}

abbrev pub entry : Bytes → HmrArena → Header → Bytes × Bytes
entry packet a h = (sv packet a h.name, sv packet a h.value)

abbrev pub live : Bytes → HmrArena → List Header → Headers
live packet a [] = []
live packet a (h ∷ hs) = if h.removed then live packet a hs else entry packet a h ∷ live packet a hs

pub record InArray (packet : Bytes) (a : HmrArena) (h : Header) : Type 0 where
  pub name : InMemory packet a h.name
  pub value : InMemory packet a h.value

abbrev pub AllIn : Bytes → HmrArena → List Header → Type 0
AllIn packet a [] = Unit
AllIn packet a (h ∷ hs) = InArray packet a h × AllIn packet a hs

module _ {a a' : HmrArena} (packet : Bytes) (e : Extends a a') where
  pub live-Extends : (hs : List Header) → AllIn packet a hs → live packet a' hs ≡ live packet a hs
  live-Extends [] h = refl
  live-Extends (x ∷ hs) h = rw (
    sv-Extends packet x.name e h.0.name,
    sv-Extends packet x.value e h.0.value,
    live-Extends hs h.1,
  )

  pub find_in-Extends :
      (name : Bytes) (hs : List Header)
      → AllIn packet a hs
      → find_in packet a' name hs ≡ find_in packet a name hs
  unfolding find_in is_match
  find_in-Extends name [] h = refl
  find_in-Extends name (x ∷ hs) h =
      rw (sv-Extends packet x.name e h.0.name, find_in-Extends name hs h.1) refl

  pub AllIn-Extends : (hs : List Header) → AllIn packet a hs → AllIn packet a' hs
  AllIn-Extends [] h = tt
  AllIn-Extends (x ∷ hs) h = (
    record {
      name = InMemory-Extends packet x.name e h.0.name;
      value = InMemory-Extends packet x.value e h.0.value;
    },
    AllIn-Extends hs h.1,
  )

module _ (packet : Bytes) (a : HmrArena) where
  pub live-append :
      (hs ks : List Header) → live packet a (hs ++ ks) ≡ live packet a hs ++ live packet a ks
  live-append [] ks = refl
  live-append (h ∷ hs) ks = ground (arith, live-append hs ks)

  pub AllIn-append :
      (hs ks : List Header) → AllIn packet a hs → AllIn packet a ks → AllIn packet a (hs ++ ks)
  AllIn-append [] ks h k = k
  AllIn-append (x ∷ hs) ks h k = (h.0, AllIn-append hs ks h.1 k)

  -- No live header of the name: setting it adds it at the end.
  pub set_first-find_none :
      (name v : Bytes) (hs : List Header)
      → find_in packet a name hs ≡ none
      → set_first name v (live packet a hs) ≡ live packet a hs ++ (name, v) ∷ []
  unfolding find_in is_match set_first
  set_first-find_none name v [] h = refl
  set_first-find_none name v (x ∷ hs) h = ground (arith, set_first-find_none name v hs)

  pub find_none-has :
      (name : Bytes) (hs : List Header)
      → find_in packet a name hs ≡ none
      → has name (live packet a hs) ≡ false
  unfolding find_in is_match has
  find_none-has name [] h = refl
  find_none-has name (x ∷ hs) h = ground (arith, find_none-has name hs)

  pub live-set_value :
      (name v : Bytes) (d : HmrStr) (hs : List Header) (i : ℕ)
      → sv packet a d ≡ v
      → find_in packet a name hs ≡ some i
      → live packet a (set_value hs i d) ≡ set_first name v (live packet a hs)
  unfolding find_in is_match set_first set_value
  live-set_value name v d [] i e h = cc
  live-set_value name v d (x ∷ hs) zero e h = ground arith
  live-set_value name v d (x ∷ hs) (suc i) e h = ground (arith, live-set_value name v d hs i e)

  pub AllIn-set_value :
      (d : HmrStr) (hs : List Header) (i : ℕ)
      → InMemory packet a d
      → AllIn packet a hs
      → AllIn packet a (set_value hs i d)
  unfolding set_value
  AllIn-set_value d [] i k h = tt
  AllIn-set_value d (x ∷ hs) zero k h = (record { name = h.0.name; value = k }, h.1)
  AllIn-set_value d (x ∷ hs) (suc i) k h = (h.0, AllIn-set_value d hs i k h.1)

  -- The lookup finds the first live header of the name.
  pub get-find_in :
      (name : Bytes) (hs : List Header)
      → Option.map (λ i. sv packet a (get_or hs i no_header).value) (find_in packet a name hs)
        ≡ first_value name (live packet a hs)
  unfolding find_in is_match first_value
  get-find_in name [] = refl
  get-find_in name (x ∷ hs) = ground (arith, get-find_in name hs)

  pub live-delete_in :
      (name : Bytes) (hs : List Header)
      → live packet a (delete_in packet a name hs).1 ≡ remove name (live packet a hs)
  unfolding delete_in is_match remove
  live-delete_in name [] = refl
  live-delete_in name (x ∷ hs) = ground (arith, live-delete_in name hs)

  pub any-delete_in :
      (name : Bytes) (hs : List Header)
      → (delete_in packet a name hs).0 ≡ has name (live packet a hs)
  unfolding delete_in is_match has
  any-delete_in name [] = refl
  any-delete_in name (x ∷ hs) = ground (arith, any-delete_in name hs)

  pub AllIn-delete_in :
      (name : Bytes) (hs : List Header)
      → AllIn packet a hs
      → AllIn packet a (delete_in packet a name hs).1
  unfolding delete_in
  AllIn-delete_in name [] h = tt
  AllIn-delete_in name (x ∷ hs) h = elim (Bool-cases (is_match packet a name x)) [
    | inl hit ↦ rw hit (record { name = h.0.name; value = h.0.value }, AllIn-delete_in name hs h.1)
    | inr miss ↦ rw miss (h.0, AllIn-delete_in name hs h.1)
  ]

  pub length-delete_in :
      (name : Bytes) (hs : List Header) → length (delete_in packet a name hs).1 ≡ length hs
  unfolding delete_in
  length-delete_in name [] = refl
  length-delete_in name (x ∷ hs) = ground (arith, length-delete_in name hs)

pub length-set_value :
    (hs : List Header) (i : ℕ) (d : HmrStr) → length (set_value hs i d) ≡ length hs
unfolding set_value
length-set_value hs i d = length-set hs i (record (get_or hs i no_header) { value = d })
