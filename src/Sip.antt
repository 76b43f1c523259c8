-- ===== src/Sip.antt =====
-- include/hmr/runtime/sip_message.hpp: the message and its header operations
-- (src/runtime/sip_message.cpp). The array `headers[0 .. num_headers)` is a list, and num_headers its
-- length; a Slice is an HmrStr.
pub mod Spec
pub mod Live
pub mod Headers
pub mod Laws
pub mod Wire
pub mod Valid
pub mod Fuel
pub mod Edit
pub mod Field
pub mod Parse
pub mod Serialize
use mathlib.Core.Option
use olproff_fastsbc_hmr.Base.{
  ℕ, suc, ◌+◌, Bool, true, false, not, ◌&&◌, ◌||◌, Option, none, some, List, [], ◌∷◌, ◌++◌, ltb,
  ◌==◌, if◌then◌else◌, length, get_or, set,
}
use olproff_fastsbc_hmr.Text.{Bytes, iequals}
use olproff_fastsbc_hmr.Arena.{Ptr, null, raw, HmrStr, null_str, StringView, HmrArena, dup, sv}

pub record Header : Type 0 where
  pub name : HmrStr
  pub value : HmrStr
  pub removed : Bool

abbrev pub max_headers : ℕ
max_headers = 32

-- `raw` is the packet; its length is raw_len.
pub record HmrSipMsg : Type 0 where
  pub packet : Bytes
  pub headers : List Header
  pub is_request : Bool
  pub start_line : HmrStr
  pub method : HmrStr
  pub request_uri : HmrStr
  pub status_code : ℕ
  pub reason_phrase : HmrStr
  pub body : HmrStr
  pub mod_request_uri : HmrStr

-- `!headers[i].removed && iequals(headers[i].name.sv(), name)`
unfoldable pub is_match : Bytes → HmrArena → Bytes → Header → Bool
unfolding iequals sv
is_match packet a name h = not h.removed && iequals (sv packet a h.name) name

unfoldable pub find_in : Bytes → HmrArena → Bytes → List Header → Option ℕ
unfolding is_match
find_in packet a name [] = none
find_in packet a name (h ∷ hs) =
    if is_match packet a name h then some 0 else Option.map suc (find_in packet a name hs)

-- `none` is -1.
unfoldable pub find : HmrSipMsg → HmrArena → Bytes → Option ℕ
unfolding find_in
find m a name = find_in m.packet a name m.headers

abbrev pub no_header : Header
no_header = record { name = null_str; value = null_str; removed = false }

unfoldable pub get_header : HmrSipMsg → HmrArena → Bytes → HmrStr
unfolding find
get_header m a name = elim (find m a name) [
  | none ↦ null_str
  | some i ↦ (get_or m.headers i no_header).value
]

-- `dup.data == nullptr && !s.empty()`
abbrev pub is_null : Ptr → Bool
is_null null = true
is_null _ = false

abbrev pub overflowed : HmrStr → StringView → Bool
overflowed d s = is_null d.ptr && not (length s.text == 0)

unfoldable pub add_header :
    HmrSipMsg → StringView → StringView → HmrArena → Bool × HmrSipMsg × HmrArena
unfolding dup
add_header m name value a =
    if not (ltb (length m.headers) max_headers)
    then (false, m, a)
    else let (dn, a1) = dup name a in
      let (dv, a2) = dup value a1 in
      if overflowed dn name
      then (false, m, a1)
      else if overflowed dv value
      then (false, m, a2)
      else (
        true,
        record m { headers = m.headers ++ record { name = dn; value = dv; removed = false } ∷ [] },
        a2,
      )

-- `headers[i].value = v`
unfoldable pub set_value : List Header → ℕ → HmrStr → List Header
set_value hs i v = set hs i (record (get_or hs i no_header) { value = v })

unfoldable pub set_header :
    HmrSipMsg → StringView → StringView → HmrArena → Bool × HmrSipMsg × HmrArena
unfolding dup find add_header set_value
set_header m name value a =
    let (d, a') = dup value a in
    if overflowed d value then (false, m, a') else elim (find m a' name.text) [
      | some i ↦ (true, record m { headers = set_value m.headers i d }, a')
      | none ↦ add_header m name value a'
    ]

-- The loop of delete_header: whether any header was marked, and the headers.
unfoldable pub delete_in : Bytes → HmrArena → Bytes → List Header → Bool × List Header
unfolding is_match
delete_in packet a name [] = (false, [])
delete_in packet a name (h ∷ hs) =
    let (any, hs') = delete_in packet a name hs in
    if is_match packet a name h then (true, record h { removed = true } ∷ hs') else (any, h ∷ hs')

unfoldable pub delete_header : HmrSipMsg → HmrArena → Bytes → Bool × HmrSipMsg
unfolding delete_in
delete_header m a name =
    let (any, hs) = delete_in m.packet a name m.headers in (any, record m { headers = hs })
