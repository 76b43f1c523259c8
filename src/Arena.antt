-- ===== src/Arena.antt =====
-- include/hmr/runtime/arena.hpp, and the pointers of HmrStr (include/hmr/runtime/hmr_runtime.h).
-- The arena's buffer is a function from addresses to bytes; a pointer names the region that it
-- points into, so that a read through it goes to the memory as it is at that moment.
pub mod Frame
use olproff_fastsbc_hmr.Base.{
  ℕ, zero, suc, ◌+◌, ◌*◌, Bool, Option, none, some, [], ◌∷◌, ltb, ◌==◌, if◌then◌else◌, length, take,
  drop, u32, add32, sub32,
}
use olproff_fastsbc_hmr.Text.{Bytes}

-- `host b`: memory of the host or of the module that holds the bytes `b` and that nothing here
-- writes (literals, variables, slots, the scratch buffer as it stands when a view of it is taken).
pub data Ptr : Type 0 where
  null : Ptr
  raw : ℕ → Ptr
  arena : ℕ → Ptr
  host : Bytes → Ptr

pub record HmrStr : Type 0 where
  pub ptr : Ptr
  pub len : ℕ

abbrev pub null_str : HmrStr
null_str = record { ptr = null; len = 0 }

-- A std::string_view as an operation gets it: where it points, and the bytes that it views.
pub record StringView : Type 0 where
  pub ptr : Ptr
  pub text : Bytes

pub record HmrArena : Type 0 where
  pub buffer : ℕ → ℕ
  pub used : ℕ

abbrev pub capacity : ℕ
capacity = 64 * 1024

unfoldable pub reset : HmrArena → HmrArena
reset a = record a { used = 0 }

unfoldable pub remaining : HmrArena → ℕ
remaining a = sub32 capacity a.used

-- The address handed out, or `none` for nullptr.
unfoldable pub alloc : ℕ → HmrArena → Option ℕ × HmrArena
unfolding remaining
alloc n a =
    if ltb (remaining a) n then (none, a) else (some a.used, record a { used = add32 a.used n })

-- std::memcpy of `text` to the address `off`
unfoldable pub write : ℕ → Bytes → (ℕ → ℕ) → ℕ → ℕ
write off [] f i = f i
write off (c ∷ cs) f i = if i == off then c else write (suc off) cs f i

unfoldable pub memcpy : ℕ → Bytes → HmrArena → HmrArena
unfolding write
memcpy off text a = record a { buffer = write off text a.buffer }

abbrev pub dup_at : ℕ → Bytes → Option ℕ × HmrArena → HmrStr × HmrArena
dup_at len text (none, a) = (null_str, a)
dup_at len text (some p, a) = (record { ptr = arena p; len = len }, memcpy p (take len text) a)

unfoldable pub dup : StringView → HmrArena → HmrStr × HmrArena
unfolding alloc memcpy
dup s a =
    let len = u32 (length s.text) in
    if len == 0 then (record { ptr = s.ptr; len = 0 }, a) else dup_at len s.text (alloc len a)

-- `n` bytes of memory from the address `off`
unfoldable pub read : (ℕ → ℕ) → ℕ → ℕ → Bytes
read f off zero = []
read f off (suc n) = f off ∷ read f (suc off) n

-- Slice::sv and `view`: the bytes that a string shows, over a packet and an arena.
unfoldable pub sv : Bytes → HmrArena → HmrStr → Bytes
unfolding read
sv packet a s = elim s.ptr [
  | null ↦ []
  | raw o ↦ take s.len (drop o packet)
  | arena o ↦ read a.buffer o s.len
  | host b ↦ take s.len b
]

-- `s.data ? s.data : ""`
abbrev pub data_or_empty : Ptr → Ptr
data_or_empty null = host []
data_or_empty p = p

-- The string_view of a string.
abbrev pub view : Bytes → HmrArena → HmrStr → StringView
view packet a s = record { ptr = data_or_empty s.ptr; text = sv packet a s }

-- A literal of the program, and the HmrStr of a std::string of the host.
abbrev pub literal : Bytes → StringView
literal b = record { ptr = host b; text = b }

abbrev pub to_str : Bytes → HmrStr
to_str b = record { ptr = host b; len = u32 (length b) }
