-- ===== src/Sip/Edit.antt =====
-- set_field of src/runtime/sip_message.cpp: the string it edits, and what it leaves alone.
use olproff_fastsbc_hmr.Base.{◌+◌, ◌<◌, Bool, true, false, Option, none, some, ◌≡◌, ◌⊎◌, length}
use olproff_fastsbc_hmr.Text.{Bytes, codes}
use olproff_fastsbc_hmr.Arena.{HmrArena, capacity, sv}
use olproff_fastsbc_hmr.Arena.Frame.{Extends}
use olproff_fastsbc_hmr.Uri.{HmrUriElement}
use olproff_fastsbc_hmr.Uri.Element.{IsEdited}
use olproff_fastsbc_hmr.Sip.{HmrSipMsg}
use olproff_fastsbc_hmr.Sip.Spec.{set_first, has}
use olproff_fastsbc_hmr.Sip.Headers.{IsValid, live_headers}
use olproff_fastsbc_hmr.Sip.Field.{HmrField, current_request_uri, source_of}

-- The edit was made, and nothing else: in the request-URI, or in the first live header of the name.
abbrev pub Made : HmrSipMsg → HmrArena → Option Bytes → Bytes → HmrSipMsg → HmrArena → Type 0
Made m a none t m' a' =
    (sv m'.packet a' (current_request_uri m') ≡ t) × (live_headers m' a' ≡ live_headers m a)
Made m a (some name) t m' a' =
    (live_headers m' a' ≡ set_first name t (live_headers m a))
    × (sv m'.packet a' (current_request_uri m') ≡ sv m.packet a (current_request_uri m))

-- The header of the field is not there.
abbrev pub Missing : HmrSipMsg → HmrArena → Option Bytes → Type 0
Missing m a none = ⊥
Missing m a (some name) = has name (live_headers m a) ≡ false

-- What an edit gives, with `t` for the string of the request-URI or of the header.
abbrev pub Edit : HmrSipMsg → HmrArena → Option Bytes → Bytes → Bool × HmrSipMsg × HmrArena → Type 0
Edit m a header t r =
    IsValid r.1 r.2
    × Extends a r.2
    × (((r.0 ≡ true) × Made m a header t r.1 r.2)
        ⊎ ((r.0 ≡ false) × (r.1 ≡ m) × ((capacity < a.used + length t) ⊎ Missing m a header)))

-- The string that is edited is the one that a lookup gives.
abbrev pub ElementEdit :
    HmrSipMsg
    → HmrArena
    → Option Bytes
    → HmrUriElement
    → Bytes
    → Bool × HmrSipMsg × HmrArena
    → Type 0
ElementEdit m a header e value r =
    (t : Bytes) × IsEdited (sv m.packet a (source_of m a header)) e value t × Edit m a header t r

-- The header that a field is in (`none` for the request-URI), and its element.
abbrev pub header_of : HmrField → Option Bytes
header_of HmrField.from_user = some (codes "From")
header_of HmrField.from_host = some (codes "From")
header_of HmrField.to_user = some (codes "To")
header_of HmrField.to_host = some (codes "To")
header_of _ = none

abbrev pub element_of : HmrField → HmrUriElement
element_of HmrField.request_uri_user = HmrUriElement.user
element_of HmrField.from_user = HmrUriElement.user
element_of HmrField.to_user = HmrUriElement.user
element_of HmrField.beyond = HmrUriElement.other
element_of _ = HmrUriElement.host

-- What set_field promises for a field; a code that is no field is refused.
abbrev pub FieldEdit :
    HmrSipMsg → HmrArena → HmrField → Bytes → Bool × HmrSipMsg × HmrArena → Type 0
FieldEdit m a HmrField.beyond value r = r ≡ (false, m, a)
FieldEdit m a f value r = ElementEdit m a (header_of f) (element_of f) value r
