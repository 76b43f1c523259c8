-- ===== src/Sip/Serialize.antt =====
-- HmrSipMsg::serialize (src/runtime/sip_message.cpp).
use olproff_fastsbc_hmr.Base.{
  ℕ, ◌+◌, ◌-◌, Bool, true, false, not, ◌&&◌, ◌||◌, Option, none, some, List, [], ◌∷◌, ◌==◌,
  if◌then◌else◌, length, take, drop, u32, sub32,
}
use olproff_fastsbc_hmr.Text.{Bytes}
use olproff_fastsbc_hmr.Arena.{Ptr, raw, arena, HmrStr, null_str, HmrArena, alloc, memcpy, sv}
use olproff_fastsbc_hmr.Sip.{Header, HmrSipMsg}
use olproff_fastsbc_hmr.Sip.Field.{present}

-- What the lambda `put` shares with the code around it.
pub record Output : Type 0 where
  pub ok : Bool
  pub arena : HmrArena

abbrev put_at : Bytes → Option ℕ × HmrArena → Output
put_at s (none, a) = record { ok = false; arena = a }
put_at s (some p, a) = record { ok = true; arena = memcpy p s a }

unfoldable pub put : Bytes → Output → Output
unfolding alloc memcpy
put s o = if not o.ok || length s == 0 then o else put_at s (alloc (u32 (length s)) o.arena)

abbrev pub crlf : Bytes
crlf = b'\r' ∷ b'\n' ∷ []

-- The bytes that a slice shows when the code comes to it.
abbrev put_str : Bytes → HmrStr → Output → Output
put_str packet s o = put (sv packet o.arena s) o

-- `p.data - q.data`, for two pointers into the packet
abbrev pub distance : Ptr → Ptr → ℕ
distance (raw o) (raw k) = o - k
distance _ _ = 0

-- The request-URI lies in the start line, as parse leaves it; where it does not, substr would throw.
unfoldable pub put_start : HmrSipMsg → Output → Output
unfolding put sv
put_start m o =
    let off = distance m.request_uri.ptr m.start_line.ptr in
    let line = sv m.packet o.arena m.start_line in
    if m.is_request && (present m.mod_request_uri && present m.request_uri)
    then put (drop (off + m.request_uri.len) line)
        (put_str m.packet m.mod_request_uri (put (take off line) o))
    else put line o

abbrev pub separator : Bytes
separator = b':' ∷ b' ' ∷ []

-- "name: value" and the end of the line
unfoldable pub put_header : Bytes → Header → Output → Output
unfolding put sv
put_header packet h o = put crlf (put_str packet h.value (put separator (put_str packet h.name o)))

unfoldable pub put_headers : Bytes → List Header → Output → Output
unfolding put_header
put_headers packet [] o = o
put_headers packet (h ∷ hs) o =
    put_headers packet hs (if h.removed then o else put_header packet h o)

unfoldable pub put_message : HmrSipMsg → Output → Output
unfolding put put_start put_headers sv
put_message m o =
    put_str m.packet m.body (put crlf (put_headers m.packet m.headers (put crlf (put_start m o))))

unfoldable pub serialize : HmrSipMsg → HmrArena → HmrStr × HmrArena
unfolding put_message
serialize m a =
    let o = put_message m (record { ok = true; arena = a }) in
    if not o.ok
    then (null_str, o.arena)
    else (record { ptr = arena a.used; len = sub32 o.arena.used a.used }, o.arena)
