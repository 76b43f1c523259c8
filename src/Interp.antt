-- ===== src/Interp.antt =====
-- include/hmr/interp/interpreter.hpp and the tables of src/interp/interpreter.cpp. The members that the
-- walk changes and the two handles that it passes on make one state. `intern` gives a string of the
-- literal pool, which is memory of the host. std::map is an association list.
pub mod Frozen
pub mod Slots
pub mod Eval
pub mod Rules
pub mod Walk
use olproff_fastsbc_hmr.Base.{
  ℕ, suc, ◌+◌, Bool, true, false, ◌&&◌, Option, none, some, List, [], ◌∷◌, ◌++◌, ◌==◌,
  if◌then◌else◌, length,
}
use olproff_fastsbc_hmr.Text.{Bytes, same_text}
use olproff_fastsbc_hmr.Arena.{HmrStr, HmrArena, to_str}
use olproff_fastsbc_hmr.Sip.{HmrSipMsg}
use olproff_fastsbc_hmr.Runtime.{HmrContext}
use olproff_fastsbc_hmr.Lowering.{capture_slot_key, ref_base_name}

pub record Tables : Type 0 where
  pub regexes : List (Bytes × ℕ)
  pub slots : List (Bytes × ℕ)
  pub frozen : Bool

pub record State (R : Type 0) : Type 0 where
  pub tables : Tables
  pub msg : Option HmrSipMsg
  pub ctx : Option (HmrContext R)

abbrev pub intern : Bytes → HmrStr
intern s = to_str s

abbrev flags_of : Bool → ℕ
flags_of ci = if ci then 1 else 0

unfoldable pub regex_index : Bytes → ℕ → ℕ → List (Bytes × ℕ) → Option ℕ
unfolding same_text
regex_index pattern flags i [] = none
regex_index pattern flags i ((p, f) ∷ rs) =
    if same_text p pattern && f == flags then some i else regex_index pattern flags (i + 1) rs

unfoldable pub add_regex : Bytes → Bool → Tables → ℕ × Tables
unfolding regex_index
add_regex pattern ci t = elim (regex_index pattern (flags_of ci) 0 t.regexes) [
  | some i ↦ (i, t)
  | none ↦
      if t.frozen
      then (0, t)
      else (length t.regexes, record t { regexes = t.regexes ++ (pattern, flags_of ci) ∷ [] })
]

-- slots_.find(name)
unfoldable pub slot_id : Bytes → List (Bytes × ℕ) → Option ℕ
unfolding same_text
slot_id name [] = none
slot_id name ((k, id) ∷ slots) = if same_text k name then some id else slot_id name slots

unfoldable pub slot_for : Bytes → Tables → ℕ × Tables
unfolding slot_id
slot_for name t = elim (slot_id name t.slots) [
  | some id ↦ (id, t)
  | none ↦
      if t.frozen
      then (0, t)
      else (length t.slots, record t { slots = t.slots ++ (name, length t.slots) ∷ [] })
]

-- `std::max(0, capture_index)`
abbrev pub index_or_zero : Option ℕ → ℕ
index_or_zero none = 0
index_or_zero (some n) = n

unfoldable pub slot_for_ref : Bytes → Option ℕ → Tables → ℕ × Tables
unfolding slot_for capture_slot_key ref_base_name
slot_for_ref path capture_index t =
    slot_for (capture_slot_key (ref_base_name path) (index_or_zero capture_index)) t

-- The memory that strings point into; with no handle there is none.
abbrev pub packet_of : Option HmrSipMsg → Bytes
packet_of none = []
packet_of (some m) = m.packet

abbrev pub arena_of : {R : Type 0} → Option (HmrContext R) → HmrArena
arena_of none = record { buffer = λ _. 0; used = 0 }
arena_of (some c) = c.arena
