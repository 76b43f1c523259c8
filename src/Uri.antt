-- ===== src/Uri.antt =====
-- src/runtime/uri.cpp and include/hmr/runtime/uri.hpp. The views of a parsed URI are offsets into
-- the value that was parsed; `none` is a view with no data pointer.
pub mod Parts
pub mod Grammar
pub mod Cuts
pub mod Angled
pub mod Read
pub mod Element
pub mod Splice
pub mod Rebuild
use olproff_fastsbc_hmr.Base.{
  ℕ, suc, ◌+◌, ◌-◌, Bool, true, false, ◌&&◌, ◌||◌, Option, none, some, [], ◌∷◌, ◌++◌, leb, ◌==◌,
  if◌then◌else◌, length, get_or, take, drop, u32,
}
use olproff_fastsbc_hmr.Text.{
  Bytes, codes, same_text, find, find_from, rfind, View, view_substr, view_from, view_trim,
  is_blank,
}
use olproff_fastsbc_hmr.Arena.{HmrStr, null_str, arena, HmrArena, alloc, memcpy}

pub record ParsedUri : Type 0 where
  pub display : Option View
  pub scheme : Option View
  pub user : Option View
  pub host : View
  pub port : Option View
  pub tail : Option View
  pub angled : Bool
  pub addr_start : ℕ
  pub addr_end : ℕ

-- `front() == '"' && back() == '"'` on a text of two bytes or more
abbrev pub quoted : Bytes → Bool
quoted s = leb 2 (length s) && get_or s 0 0 == b'"' && get_or s (length s - 1) 0 == b'"'

-- the display name in front of '<'
unfoldable pub display_of : View → View
unfolding view_trim is_blank
display_of before =
    let d = view_trim is_blank is_blank before in
    if quoted d.text then view_substr d 1 (length d.text - 2) else d

pub record Angle : Type 0 where
  pub display : Option View
  pub angled : Bool
  pub addr_start : ℕ
  pub inner : View

-- the part between '<' and '>', or all of the value
unfoldable pub angle : Bytes → Angle
unfolding find find_from display_of
angle value = elim (find b'<' value) [
  | none ↦ record {
    display = none;
    angled = false;
    addr_start = 0;
    inner = record { off = 0; text = value };
  }
  | some lt ↦
      let whole : View = record { off = 0; text = value } in
      let gt : ℕ = elim (find_from b'>' (lt + 1) value) [ some g ↦ g | none ↦ length value ] in
      record {
        display = some (display_of (view_substr whole 0 lt));
        angled = true;
        addr_start = lt + 1;
        inner = view_substr whole (lt + 1) (gt - (lt + 1));
      }
]

abbrev pub is_scheme : Bytes → Bool
is_scheme s = same_text s (codes "sip") || same_text s (codes "sips") || same_text s (codes "tel")

-- `scheme:`, and the cursor behind it
unfoldable pub scheme_of : View → Option View × ℕ
unfolding find same_text
scheme_of s = elim (find b':' s.text) [
  | none ↦ (none, 0)
  | some colon ↦
      if is_scheme (take colon s.text) then (some (view_substr s 0 colon), colon + 1) else (none, 0)
]

-- `user@`, and what follows it
unfoldable pub user_of : View → Option View × View
unfolding find
user_of rest = elim (find b'@' rest.text) [
  | none ↦ (none, rest)
  | some at ↦ (some (view_substr rest 0 at), view_from rest (at + 1))
]

-- find_first_of(";?>")
unfoldable pub find_tail : Bytes → Option ℕ
find_tail [] = none
find_tail (x ∷ xs) =
    if x == b';' || x == b'?' || x == b'>'
    then some 0
    else elim (find_tail xs) [ none ↦ none | some i ↦ some (suc i) ]

-- host[:port] and the parameters behind it
unfoldable pub hostport_of : View → View × Option View
unfolding find_tail
hostport_of hostport = elim (find_tail hostport.text) [
  | none ↦ (view_substr hostport 0 (length hostport.text), none)
  | some e ↦ (view_substr hostport 0 e, some (view_from hostport e))
]

unfoldable pub host_of : View → View × Option View
unfolding rfind
host_of hp = elim (rfind b':' hp.text) [
  | none ↦ (hp, none)
  | some c ↦ (view_substr hp 0 c, some (view_from hp (c + 1)))
]

-- `u.port.empty() ? 0 : u.port.size() + 1`
abbrev port_room : Option View → ℕ
port_room none = 0
port_room (some p) = if length p.text == 0 then 0 else length p.text + 1

unfoldable pub parse_uri : Bytes → ParsedUri
unfolding angle scheme_of user_of hostport_of host_of
parse_uri value =
    let g = angle value in
    let s = g.inner in
    let (scheme, cursor) = scheme_of s in
    let (user, hostport) = user_of (view_from s cursor) in
    let (hp, tail) = hostport_of hostport in
    let (host, port) = host_of hp in
    record {
      display = g.display;
      scheme = scheme;
      user = user;
      host = host;
      port = port;
      tail = tail;
      angled = g.angled;
      addr_start = g.addr_start;
      addr_end = g.addr_start + (host.off - s.off) + length host.text + port_room port;
    }

-- hmr_runtime.h: HmrUriElement; `other` is any code that is none of its enumerators.
pub data HmrUriElement : Type 0 where
  whole display user host port other : HmrUriElement

-- result = value[0:start] + pre + nv + post + value[end:]
pub record Rewrite : Type 0 where
  pub start : ℕ
  pub stop : ℕ
  pub pre : Bytes
  pub post : Bytes

abbrev pub over : View → Rewrite
over v = record { start = v.off; stop = v.off + length v.text; pre = []; post = [] }

-- The switch of rebuild_uri. Its callers pass what sv() and view() give, which has a data pointer also
-- for a string without one (that of the literal ""), so that the host of the parsed URI has one and the
-- branches for a missing host are not reached.
unfoldable pub rewrite_of : Bytes → HmrUriElement → Rewrite
unfolding parse_uri
rewrite_of value e =
    let u = parse_uri value in
    let whole_value : Rewrite = record { start = 0; stop = length value; pre = []; post = [] } in
    elim e [
      | user ↦ elim u.user [
        | some v ↦ over v
        | none ↦ record { start = u.host.off; stop = u.host.off; pre = []; post = codes "@" }
      ]
      | host ↦ over u.host
      | port ↦ elim u.port [
        | some v ↦ over v
        | none ↦
            let at = u.host.off + length u.host.text in
            record { start = at; stop = at; pre = codes ":"; post = [] }
      ]
      | display ↦ elim u.display [
        | some v ↦ over v
        | none ↦ record { start = 0; stop = 0; pre = []; post = codes " " }
      ]
      | whole ↦ whole_value
      | other ↦ whole_value
    ]

abbrev pub rewritten : Rewrite → Bytes → Bytes → Bytes
rewritten r value nv = take r.start value ++ (r.pre ++ (nv ++ (r.post ++ drop r.stop value)))

abbrev pub rebuild_at : ℕ → Bytes → Option ℕ × HmrArena → HmrStr × HmrArena
rebuild_at total text (none, a) = (null_str, a)
rebuild_at total text (some p, a) = (record { ptr = arena p; len = total }, memcpy p text a)

unfoldable pub rebuild_uri : HmrArena → Bytes → HmrUriElement → Bytes → HmrStr × HmrArena
unfolding rewrite_of alloc memcpy
rebuild_uri a value e nv =
    let r = rewrite_of value e in
    let total =
      u32 (r.start + length r.pre + length nv + length r.post + (length value - r.stop)) in
    rebuild_at total (rewritten r value nv) (alloc total a)
