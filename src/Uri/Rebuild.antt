-- ===== src/Uri/Rebuild.antt =====
-- rebuild_uri of src/runtime/uri.cpp: what it allocates and writes.
use olproff_fastsbc_hmr.Base.{
  ◌+◌, ◌-◌, ◌≤◌, ◌<◌, ◌^◌, [], ◌++◌, ◌≡◌, refl, inl, inr, ◌⊎◌, arith, length, take, drop,
  length-append, length-take, length-drop, u32_small, Option-cases,
}
use olproff_fastsbc_hmr.Text.{Bytes, View}
use olproff_fastsbc_hmr.Text.Part.{Part, Part-within}
use olproff_fastsbc_hmr.Arena.{HmrStr, arena, HmrArena}
use olproff_fastsbc_hmr.Arena.Frame.{IsFit, Copied, Full, Copied-at, alloc-cases}
use olproff_fastsbc_hmr.Uri.{HmrUriElement, parse_uri, Rewrite, rewrite_of, rewritten, rebuild_uri}
use olproff_fastsbc_hmr.Uri.Element.{IsEdited}
use olproff_fastsbc_hmr.Uri.Splice.{rewritten-IsEdited}
use olproff_fastsbc_hmr.Uri.Parts.{parse_uri_lem}

-- The rewrite cuts a range out of the value, and puts at most one byte beside the new text.
record Fits (value : Bytes) (r : Rewrite) : Type 0 where
  in_value : r.start ≤ length value
  in_order : r.start ≤ r.stop
  one_byte : length r.pre + length r.post ≤ 1

over-Fits :
    {value : Bytes} (v : View)
    → Part value v
    → Fits value (record { start = v.off; stop = v.off + length v.text; pre = []; post = [] })
over-Fits v h = record {
  in_value = omega (arith, Part-within v h);
  in_order = omega arith;
  one_byte = omega arith;
}

whole-Fits :
    (value : Bytes) → Fits value (record { start = 0; stop = length value; pre = []; post = [] })
whole-Fits value = record { in_value = omega arith; in_order = omega arith; one_byte = omega arith }

rewrite_of-Fits : (value : Bytes) (e : HmrUriElement) → Fits value (rewrite_of value e)
unfolding rewrite_of
rewrite_of-Fits value HmrUriElement.whole = whole-Fits value
rewrite_of-Fits value HmrUriElement.other = whole-Fits value
rewrite_of-Fits value HmrUriElement.host = over-Fits _ (parse_uri_lem value).host
rewrite_of-Fits value HmrUriElement.user = elim (Option-cases (parse_uri value).user) [
  | inl absent ↦
      rw (absent, rewrite_of)
        (record {
          in_value = omega (arith, Part-within _ (parse_uri_lem value).host);
          in_order = omega arith;
          one_byte = omega arith;
        })
  | inr (v, found) ↦ rw (found, rewrite_of) (over-Fits v (rw found at (parse_uri_lem value).user))
]
rewrite_of-Fits value HmrUriElement.port = elim (Option-cases (parse_uri value).port) [
  | inl absent ↦
      rw (absent, rewrite_of)
        (record {
          in_value = omega (arith, Part-within _ (parse_uri_lem value).host);
          in_order = omega arith;
          one_byte = omega arith;
        })
  | inr (v, found) ↦ rw (found, rewrite_of) (over-Fits v (rw found at (parse_uri_lem value).port))
]
rewrite_of-Fits value HmrUriElement.display = elim (Option-cases (parse_uri value).display) [
  | inl absent ↦
      rw (absent, rewrite_of)
        (record { in_value = omega arith; in_order = omega arith; one_byte = omega arith })
  | inr (v, found) ↦
      rw (found, rewrite_of) (over-Fits v (rw found at (parse_uri_lem value).display))
]

length-rewritten :
    (r : Rewrite) (value nv : Bytes)
    → r.start ≤ length value
    → length (rewritten r value nv)
      ≡ r.start + length r.pre + length nv + length r.post + (length value - r.stop)
length-rewritten r value nv h = omega (
  arith,
  length-append (take r.start value) (r.pre ++ (nv ++ (r.post ++ drop r.stop value))),
  length-append r.pre (nv ++ (r.post ++ drop r.stop value)),
  length-append nv (r.post ++ drop r.stop value),
  length-append r.post (drop r.stop value),
  length-take r.start value,
  length-drop r.stop value,
)

-- What rebuild_uri gives, as (string, arena), for the text `t`: the string in the arena, or no room.
abbrev pub Rebuilt : Bytes → HmrArena → Bytes → HmrStr × HmrArena → Type 0
Rebuilt packet a t r = (Copied packet a t r.0 r.1 × (r.0.ptr ≡ arena a.used)) ⊎ Full a t r.0 r.1

rebuild_uri_lem :
    (packet : Bytes) (a : HmrArena) (value : Bytes) (e : HmrUriElement) (nv : Bytes)
    → IsFit a
    → length (rewritten (rewrite_of value e) value nv) < 2 ^ 32
    → Rebuilt packet a (rewritten (rewrite_of value e) value nv) (rebuild_uri a value e nv)
unfolding rebuild_uri
rebuild_uri_lem packet a value e nv fit small =
    let r = rewrite_of value e in
    let size = length-rewritten r value nv (rewrite_of-Fits value e).in_value in
    rw (← size, u32_small (length (rewritten r value nv)) small)
      (elim (alloc-cases (length (rewritten r value nv)) a fit) [
        | inl full ↦ rw full.1 (inr (record { no_room = full.0; is_null = refl; same = refl }))
        | inr fits ↦ rw fits.1 (inl (Copied-at packet (rewritten r value nv) a fits.0, refl))
      ])

-- With the arena in bounds, and value and new text together of fewer than 2 ^ 32 - 1 bytes: there is a
-- text that is the value with the element replaced. The result of rebuild_uri is a string in the arena
-- that reads as that text, and nothing that was in use is changed; or, if the arena has no room for
-- exactly that text, it is the null string and the arena as it was. The component that parse_uri finds
-- is replaced; where there is none, a user goes with `@` in front of the host, a port with `:` behind
-- the host, and a display name with a blank in front of the value.
pub rebuild_uri-rewritten :
    (packet : Bytes) (a : HmrArena) (value : Bytes) (e : HmrUriElement) (nv : Bytes)
    → IsFit a
    → length value + length nv + 1 < 2 ^ 32
    → (t : Bytes) × IsEdited value e nv t × Rebuilt packet a t (rebuild_uri a value e nv)
rebuild_uri-rewritten packet a value e nv fit small =
    let r = rewrite_of value e in
    let fits = rewrite_of-Fits value e in
    let size = length-rewritten r value nv fits.in_value in
    (
      rewritten r value nv,
      rewritten-IsEdited value e nv,
      rebuild_uri_lem packet a value e nv fit
          (omega (arith, size, small, fits.in_value, fits.in_order, fits.one_byte)),
    )
