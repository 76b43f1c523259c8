-- ===== src/Uri/Parts.antt =====
-- parse_uri of src/runtime/uri.cpp: where its views lie.
use Prim.{tt}
use olproff_fastsbc_hmr.Base.{
  ℕ, ◌+◌, ◌-◌, ◌≤◌, ◌<◌, some, [], ◌∷◌, ◌≡◌, inl, inr, arith, leb, leb→le, if◌then◌else◌, length,
  take, Bool-cases, Option-cases,
}
use olproff_fastsbc_hmr.Text.{Bytes, find, rfind, View, view_substr, view_from, is_blank}
use olproff_fastsbc_hmr.Text.Bounds.{find_lt}
use olproff_fastsbc_hmr.Text.Part.{
  Part, OptionPart, whole_view, Part-whole, view_substr-Part, view_from-Part, view_trim-Part,
  rfind_lt,
}
use olproff_fastsbc_hmr.Uri.{
  ParsedUri, quoted, display_of, angle, is_scheme, scheme_of, user_of, find_tail, hostport_of,
  host_of, parse_uri,
}

find_tail_lt : (s : Bytes) (i : ℕ) → find_tail s ≡ some i → i < length s
unfolding find_tail
find_tail_lt [] i h = absurd (ground arith)
find_tail_lt (x ∷ s) i h = ground (arith, find_tail_lt s (i - 1))

module _ {value : Bytes} where
  unquoted-Part :
      (d : View)
      → Part value d
      → Part value (if quoted d.text then view_substr d 1 (length d.text - 2) else d)
  unquoted-Part d h = elim (Bool-cases (leb 2 (length d.text))) [
    | inl long ↦ elim (Bool-cases (quoted d.text)) [
      | inl q ↦ rw q (view_substr-Part d 1 _ (omega (arith, leb→le 2 (length d.text) long)) h)
      | inr plain ↦ rw plain h
    ]
    | inr short ↦ rw short h
  ]

  display_of-Part : (v : View) → Part value v → Part value (display_of v)
  unfolding display_of
  display_of-Part v h = unquoted-Part _ (view_trim-Part is_blank is_blank v h)

  scheme_of-Part :
      (s : View)
      → Part value s
      → OptionPart value (scheme_of s).0 × ((scheme_of s).1 ≤ length s.text)
  unfolding scheme_of
  scheme_of-Part s h = elim (Option-cases (find b':' s.text)) [
    | inl absent ↦ rw (absent, scheme_of) (tt, omega arith)
    | inr (colon, found) ↦
        rw (found, scheme_of)
          (elim (Bool-cases (is_scheme (take colon s.text))) [
            | inl known ↦ rw known (
              view_substr-Part s 0 colon (omega arith) h,
              omega (arith, find_lt b':' s.text colon found),
            )
            | inr other ↦ rw other (tt, omega arith)
          ])
  ]

  user_of-Part :
      (v : View) → Part value v → OptionPart value (user_of v).0 × Part value (user_of v).1
  unfolding user_of
  user_of-Part v h = elim (Option-cases (find b'@' v.text)) [
    | inl absent ↦ rw (absent, user_of) (tt, h)
    | inr (at, found) ↦
        rw (found, user_of)
          (
            view_substr-Part v 0 at (omega arith) h,
            view_from-Part v (at + 1) (omega (arith, find_lt b'@' v.text at found)) h,
          )
  ]

  hostport_of-Part :
      (v : View) → Part value v → Part value (hostport_of v).0 × OptionPart value (hostport_of v).1
  unfolding hostport_of
  hostport_of-Part v h = elim (Option-cases (find_tail v.text)) [
    | inl absent ↦
        rw (absent, hostport_of) (view_substr-Part v 0 (length v.text) (omega arith) h, tt)
    | inr (e, found) ↦
        rw (found, hostport_of)
          (
            view_substr-Part v 0 e (omega arith) h,
            view_from-Part v e (omega (arith, find_tail_lt v.text e found)) h,
          )
  ]

  host_of-Part :
      (v : View) → Part value v → Part value (host_of v).0 × OptionPart value (host_of v).1
  unfolding host_of
  host_of-Part v h = elim (Option-cases (rfind b':' v.text)) [
    | inl absent ↦ rw (absent, host_of) (h, tt)
    | inr (c, found) ↦
        rw (found, host_of)
          (
            view_substr-Part v 0 c (omega arith) h,
            view_from-Part v (c + 1) (omega (arith, rfind_lt b':' v.text c found)) h,
          )
  ]

angle-Part :
    (value : Bytes) → OptionPart value (angle value).display × Part value (angle value).inner
unfolding angle
angle-Part value = elim (Option-cases (find b'<' value)) [
  | inl absent ↦ rw (absent, angle) (tt, Part-whole value)
  | inr (lt, found) ↦
      rw (found, angle)
        (
          display_of-Part _
              (view_substr-Part (whole_view value) 0 lt (omega arith) (Part-whole value)),
          view_substr-Part (whole_view value) (lt + 1) _
              (omega (arith, find_lt b'<' value lt found)) (Part-whole value),
        )
]

-- Each view of a parsed URI is a part of the value.
pub record AreParts (value : Bytes) (u : ParsedUri) : Type 0 where
  pub display : OptionPart value u.display
  pub scheme : OptionPart value u.scheme
  pub user : OptionPart value u.user
  pub host : Part value u.host
  pub port : OptionPart value u.port
  pub tail : OptionPart value u.tail

pub parse_uri_lem : (value : Bytes) → AreParts value (parse_uri value)
unfolding parse_uri
parse_uri_lem value =
    let g = angle value in
    let (display, inner) = angle-Part value in
    let (scheme, cursor) = scheme_of-Part g.inner inner in
    let rest = view_from g.inner (scheme_of g.inner).1 in
    let (user, hostport) = user_of-Part rest (view_from-Part g.inner _ cursor inner) in
    let (hp, tail) = hostport_of-Part (user_of rest).1 hostport in
    let (host, port) = host_of-Part (hostport_of (user_of rest).1).0 hp in
    record {
      display = display;
      scheme = scheme;
      user = user;
      host = host;
      port = port;
      tail = tail;
    }
