-- ===== src/Uri/Read.antt =====
-- parse_uri of src/runtime/uri.cpp: that it takes the value apart by its form.
use mathlib.Core.Bool.{true≢false}
use olproff_fastsbc_hmr.Base.{
  ℕ, true, some, [], ◌∷◌, ◌++◌, ◌==◌, ==_iff, ◌≡◌, refl, sym, ap, ◌∙◌, inl, inr, ◌⊎◌, arith, length,
  take, drop, take-append-drop, Bool-cases, Option-cases,
}
use olproff_fastsbc_hmr.Text.{Bytes, codes, same_text, starts_with, find, rfind, View, view_from}
use olproff_fastsbc_hmr.Text.Fold.{same_text_iff}
use olproff_fastsbc_hmr.Uri.{
  ParsedUri, angle, is_scheme, scheme_of, user_of, find_tail, hostport_of, host_of, parse_uri,
}
use olproff_fastsbc_hmr.Uri.Parts.{AreParts, parse_uri_lem}
use olproff_fastsbc_hmr.Uri.Grammar.{has_scheme, SchemeOf, UserOf, TailOf, HostOf, InnerOf}
use olproff_fastsbc_hmr.Uri.Angled.{from_suc, take_all, angle-InnerOf}
use olproff_fastsbc_hmr.Uri.Cuts.{
  find_none, find-splits, rfind_none, rfind-splits, find_tail_none, find_tail-splits,
}

starts_with-splits : (s p : Bytes) → starts_with s p ≡ true → (r : Bytes) × (s ≡ p ++ r)
unfolding starts_with
starts_with-splits s [] h = (s, refl)
starts_with-splits [] (c ∷ p) h = absurd (ground arith)
starts_with-splits (x ∷ s) (c ∷ p) h = elim (Bool-cases (x == c)) [
  | inl same ↦
      let (r, e) = starts_with-splits s p (rw same at h) in
      (r, rw ((==_iff x c).0 same) (ap (λ t. c ∷ t) e))
  | inr other ↦ absurd (ground (arith, rw other at h))
]

-- A value that begins with a scheme has it in front of its first colon.
has_scheme-find :
    (s : Bytes)
    → has_scheme s ≡ true
    → (i : ℕ) × (find b':' s ≡ some i) × (is_scheme (take i s) ≡ true)
unfolding find same_text
has_scheme-find s h = elim (Bool-cases (starts_with s (codes "sip:"))) [
  | inl sip ↦ let (r, e) = starts_with-splits s (codes "sip:") sip in rw e (3, refl, refl)
  | inr no_sip ↦ elim (Bool-cases (starts_with s (codes "sips:"))) [
    | inl sips ↦ let (r, e) = starts_with-splits s (codes "sips:") sips in rw e (4, refl, refl)
    | inr no_sips ↦
        let (r, e) = starts_with-splits s (codes "tel:") (rw (no_sip, no_sips) at h) in
        rw e (3, refl, refl)
  ]
]

named :
    (t : Bytes) → is_scheme t ≡ true → (t ≡ codes "sip") ⊎ ((t ≡ codes "sips") ⊎ (t ≡ codes "tel"))
named t h = elim (Bool-cases (same_text t (codes "sip"))) [
  | inl sip ↦ inl ((same_text_iff _ _).0 sip)
  | inr no_sip ↦ elim (Bool-cases (same_text t (codes "sips"))) [
    | inl sips ↦ inr (inl ((same_text_iff _ _).0 sips))
    | inr no_sips ↦ inr (inr ((same_text_iff _ _).0 (rw (no_sip, no_sips) at h)))
  ]
]

scheme_of-SchemeOf : (s : View) → SchemeOf s.text (scheme_of s).0 (drop (scheme_of s).1 s.text)
unfolding scheme_of
scheme_of-SchemeOf s = elim (Option-cases (find b':' s.text)) [
  | inl none_ ↦
      rw (none_, scheme_of)
        (
          refl,
          elim (Bool-cases (has_scheme s.text)) [
            | inl has_ ↦ let (i, e, k) = has_scheme-find s.text has_ in absurd (cc)
            | inr no_ ↦ no_
          ],
        )
  | inr (colon, found) ↦ elim (Bool-cases (is_scheme (take colon s.text))) [
    | inl known ↦
        let (splits, before) = find-splits b':' s.text colon found in
        rw (found, known, scheme_of, from_suc colon s.text)
          (splits, named (take colon s.text) known)
    | inr other ↦
        rw (found, other, scheme_of)
          (
            refl,
            elim (Bool-cases (has_scheme s.text)) [
              | inl has_ ↦
                  let (i, e, k) = has_scheme-find s.text has_ in
                  let same : colon ≡ i = ground (arith, found, e) in
                  absurd (true≢false (sym k ∙ rw same at other))
              | inr no_ ↦ no_
            ],
          )
  ]
]

user_of-UserOf : (v : View) → UserOf v.text (user_of v).0 (user_of v).1.text
unfolding user_of
user_of-UserOf v = elim (Option-cases (find b'@' v.text)) [
  | inl none_ ↦ rw (none_, user_of) (refl, find_none b'@' v.text none_)
  | inr (at, found) ↦
      let (splits, before) = find-splits b'@' v.text at found in
      rw (found, user_of, from_suc at v.text) (splits, before)
]

host_of-HostOf : (v : View) → HostOf v.text (host_of v).0.text (host_of v).1
unfolding host_of
host_of-HostOf v = elim (Option-cases (rfind b':' v.text)) [
  | inl none_ ↦ rw (none_, host_of) (refl, rfind_none b':' v.text none_)
  | inr (c, found) ↦
      let (splits, behind) = rfind-splits b':' v.text c found in
      rw (found, host_of, from_suc c v.text) (splits, behind)
]

hostport_of-TailOf : (v : View) → TailOf v.text (hostport_of v).0.text (hostport_of v).1
unfolding hostport_of
hostport_of-TailOf v = elim (Option-cases (find_tail v.text)) [
  | inl none_ ↦
      let all : take (length v.text) v.text ≡ v.text = take_all (length v.text) v.text refl in
      rw (none_, hostport_of, all) (refl, find_tail_none v.text none_)
  | inr (e, found) ↦
      let (stops, before) = find_tail-splits v.text e found in
      rw (found, hostport_of) (sym (take-append-drop e v.text), stops, before)
]

-- The value taken apart: the address in it, what is behind its scheme, its host with the port and the
-- tail, and its host with the port.
pub record IsParsed (value : Bytes) (u : ParsedUri) : Type 0 where
  pub parts : AreParts value u
  pub inner : Bytes
  pub rest : Bytes
  pub hostport : Bytes
  pub hp : Bytes
  pub angle : InnerOf value u.angled u.display u.addr_start inner
  pub scheme : SchemeOf inner u.scheme rest
  pub user : UserOf rest u.user hostport
  pub tail : TailOf hostport hp u.tail
  pub host : HostOf hp u.host.text u.port

-- Whatever the value: parse_uri finds the address between the first '<' and the '>' behind it, or all of
-- the value if it has no '<', and the display name is what is in front of the '<' without blanks and
-- quotes around it. The address is [scheme ":"] [user "@"] host [":" port] [tail]: the scheme is sip,
-- sips or tel and is there exactly if the address begins with one of them and a colon; the user goes to
-- the first '@' behind that, and is there exactly if there is one; the tail begins at the first ';', '?'
-- or '>' behind the user; the port is behind the last ':' in front of the tail. Each component that is
-- found stands in the value at the offset of its view.
pub parse_uri-IsParsed : (value : Bytes) → IsParsed value (parse_uri value)
unfolding parse_uri
parse_uri-IsParsed value =
    let s = (angle value).inner in
    let rest = view_from s (scheme_of s).1 in
    let hostport = (user_of rest).1 in
    let hp = (hostport_of hostport).0 in
    record {
      parts = parse_uri_lem value;
      inner = s.text;
      rest = rest.text;
      hostport = hostport.text;
      hp = hp.text;
      angle = angle-InnerOf value;
      scheme = scheme_of-SchemeOf s;
      user = user_of-UserOf rest;
      tail = hostport_of-TailOf hostport;
      host = host_of-HostOf hp;
    }
