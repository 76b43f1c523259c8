-- ===== src/Sip/Field.antt =====
-- get_field and set_field of src/runtime/sip_message.cpp: the user and host parts of the request-URI
-- and of the From and To headers.
use olproff_fastsbc_hmr.Base.{
  ℕ, ◌+◌, Bool, true, false, not, Option, none, some, [], if◌then◌else◌, length, get_or, drop, u32,
}
use olproff_fastsbc_hmr.Text.{Bytes, codes, View}
use olproff_fastsbc_hmr.Arena.{Ptr, null, raw, arena, host, HmrStr, null_str, HmrArena, sv}
use olproff_fastsbc_hmr.Uri.{HmrUriElement, parse_uri, rebuild_uri}
use olproff_fastsbc_hmr.Sip.{HmrSipMsg, no_header, find, get_header, is_null, set_value}

-- HmrField; `beyond` is any code from HMR_FIELD_MAX on.
pub data HmrField : Type 0 where
  request_uri_user request_uri_host from_user from_host to_user to_host beyond : HmrField

abbrev pub present : HmrStr → Bool
present s = not (is_null s.ptr)

unfoldable pub current_request_uri : HmrSipMsg → HmrStr
current_request_uri m = if present m.mod_request_uri then m.mod_request_uri else m.request_uri

-- `header` is `none` for the request-URI.
pub record FieldRef : Type 0 where
  pub header : Option Bytes
  pub element : HmrUriElement

unfoldable pub field_ref : HmrField → FieldRef
field_ref request_uri_user = record { header = none; element = HmrUriElement.user }
field_ref request_uri_host = record { header = none; element = HmrUriElement.host }
field_ref from_user = record { header = some (codes "From"); element = HmrUriElement.user }
field_ref from_host = record { header = some (codes "From"); element = HmrUriElement.host }
field_ref to_user = record { header = some (codes "To"); element = HmrUriElement.user }
field_ref to_host = record { header = some (codes "To"); element = HmrUriElement.host }
field_ref beyond = record { header = none; element = HmrUriElement.whole }

-- A pointer `n` bytes further on, in a view of the string. The view of a string without a data pointer
-- is that of the literal "".
abbrev pub advance : Ptr → ℕ → Ptr
advance null n = host []
advance (raw o) n = raw (o + n)
advance (arena o) n = arena (o + n)
advance (host b) n = host (drop n b)

-- Slice::of a view into the string `s`
abbrev pub slice_in : HmrStr → View → HmrStr
slice_in s v = record { ptr = advance s.ptr v.off; len = u32 (length v.text) }

unfoldable pub component_of : HmrStr → Bytes → HmrUriElement → HmrStr
unfolding parse_uri
component_of s value HmrUriElement.user = elim (parse_uri value).user [
  | none ↦ null_str
  | some v ↦ slice_in s v
]
component_of s value HmrUriElement.host = slice_in s (parse_uri value).host
component_of s value _ = null_str

-- The string that a field is read from.
abbrev pub source_of : HmrSipMsg → HmrArena → Option Bytes → HmrStr
source_of m a (some name) = get_header m a name
source_of m a none = current_request_uri m

abbrev pub get_ref : HmrSipMsg → HmrArena → FieldRef → HmrStr
get_ref m a ref = let s = source_of m a ref.header in component_of s (sv m.packet a s) ref.element

unfoldable pub get_field : HmrSipMsg → HmrArena → HmrField → HmrStr
unfolding get_header current_request_uri field_ref component_of sv
get_field m a beyond = null_str
get_field m a f = get_ref m a (field_ref f)

-- The rebuilt value of a header, stored in place.
abbrev pub store_header : HmrSipMsg → ℕ → HmrStr × HmrArena → Bool × HmrSipMsg × HmrArena
store_header m i (rebuilt, a) =
    if is_null rebuilt.ptr
    then (false, m, a)
    else (true, record m { headers = set_value m.headers i rebuilt }, a)

abbrev pub store_uri : HmrSipMsg → HmrStr × HmrArena → Bool × HmrSipMsg × HmrArena
store_uri m (rebuilt, a) =
    if is_null rebuilt.ptr then (false, m, a) else (true, record m { mod_request_uri = rebuilt }, a)

abbrev pub set_ref : HmrSipMsg → HmrArena → FieldRef → Bytes → Bool × HmrSipMsg × HmrArena
set_ref m a ref value = elim ref.header [
  | none ↦ store_uri m (rebuild_uri a (sv m.packet a (current_request_uri m)) ref.element value)
  | some name ↦ elim (find m a name) [
    | none ↦ (false, m, a)
    | some i ↦
        let old = (get_or m.headers i no_header).value in
        store_header m i (rebuild_uri a (sv m.packet a old) ref.element value)
  ]
]

unfoldable pub set_field : HmrSipMsg → HmrField → Bytes → HmrArena → Bool × HmrSipMsg × HmrArena
unfolding rebuild_uri current_request_uri field_ref find set_value sv
set_field m beyond value a = (false, m, a)
set_field m f value a = set_ref m a (field_ref f) value
