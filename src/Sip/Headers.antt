-- ===== src/Sip/Headers.antt =====
-- The header operations of HmrSipMsg (src/runtime/sip_message.cpp) on the live headers.
use olproff_fastsbc_hmr.Base.{
  ℕ, ◌+◌, ◌*◌, ◌≤◌, ◌<◌, ◌^◌, Bool, true, false, not, ◌&&◌, Option, none, some, List, [], ◌∷◌, ◌++◌,
  ◌≡◌, refl, sym, ap, ap₂, ◌∙◌, ◌⊎◌, inl, inr, arith, ltb, ◌==◌, length, Bool-cases, Option-cases,
  ltb→lt, ltb_false→le, length-append,
}
use olproff_fastsbc_hmr.Text.{Bytes}
use olproff_fastsbc_hmr.Arena.{Ptr, null, HmrStr, StringView, HmrArena, capacity, dup, sv}
use olproff_fastsbc_hmr.Arena.Frame.{
  IsFit, InMemory, Extends, Extends-trans, Copied, Full, dup-cases, InMemory-Extends, sv-Extends,
}
use olproff_fastsbc_hmr.Sip.{
  Header, HmrSipMsg, max_headers, find, find_in, get_header, add_header, set_header, set_value,
  delete_header, overflowed, is_null,
}
use olproff_fastsbc_hmr.Sip.Spec.{Headers, first_value, set_first, remove, has}
use olproff_fastsbc_hmr.Sip.Live.{
  live, AllIn, live-Extends, AllIn-Extends, live-append, AllIn-append, set_first-find_none,
  live-set_value, AllIn-set_value, get-find_in, live-delete_in, any-delete_in, AllIn-delete_in,
  length-delete_in, length-set_value,
}

abbrev pub live_headers : HmrSipMsg → HmrArena → Headers
live_headers m a = live m.packet a m.headers

-- The slices of the request or status line, and of the body.
pub record LinesIn (m : HmrSipMsg) (a : HmrArena) : Type 0 where
  pub start_line : InMemory m.packet a m.start_line
  pub method : InMemory m.packet a m.method
  pub request_uri : InMemory m.packet a m.request_uri
  pub reason_phrase : InMemory m.packet a m.reason_phrase
  pub body : InMemory m.packet a m.body
  pub mod_request_uri : InMemory m.packet a m.mod_request_uri

-- Every slice of the message lies in the packet or in the used part of the arena.
pub record IsValid (m : HmrSipMsg) (a : HmrArena) : Type 0 where
  pub fit : IsFit a
  pub room : length m.headers ≤ max_headers
  pub lines : LinesIn m a
  pub headers : AllIn m.packet a m.headers

-- A view that is handed to an operation: it lies in memory, and its size is a uint32_t.
pub record IsView (packet : Bytes) (a : HmrArena) (s : StringView) : Type 0 where
  pub small : length s.text < 2 ^ 32
  pub inside : InMemory packet a (record { ptr = s.ptr; len = length s.text })

-- They do not depend on the headers.
lines_of :
    (m : HmrSipMsg) {a : HmrArena} (hs : List Header)
    → LinesIn m a
    → LinesIn (record m { headers = hs }) a
lines_of m hs h = record {
  start_line = h.start_line;
  method = h.method;
  request_uri = h.request_uri;
  reason_phrase = h.reason_phrase;
  body = h.body;
  mod_request_uri = h.mod_request_uri;
}

LinesIn-Extends : {m : HmrSipMsg} {a a' : HmrArena} → Extends a a' → LinesIn m a → LinesIn m a'
LinesIn-Extends {m} e h = record {
  start_line = InMemory-Extends m.packet m.start_line e h.start_line;
  method = InMemory-Extends m.packet m.method e h.method;
  request_uri = InMemory-Extends m.packet m.request_uri e h.request_uri;
  reason_phrase = InMemory-Extends m.packet m.reason_phrase e h.reason_phrase;
  body = InMemory-Extends m.packet m.body e h.body;
  mod_request_uri = InMemory-Extends m.packet m.mod_request_uri e h.mod_request_uri;
}

pub IsValid-Extends : {m : HmrSipMsg} {a a' : HmrArena} → Extends a a' → IsValid m a → IsValid m a'
IsValid-Extends {m} e h = record {
  fit = e.fit;
  room = h.room;
  lines = LinesIn-Extends {m = m} e h.lines;
  headers = AllIn-Extends m.packet e m.headers h.headers;
}

abbrev pub or_empty : Option Bytes → Bytes
or_empty none = []
or_empty (some v) = v

-- A lookup reads the value of the first live header of that name, and nothing if there is none.
pub get_header-first_value :
    (m : HmrSipMsg) (a : HmrArena) (name : Bytes)
    → sv m.packet a (get_header m a name) ≡ or_empty (first_value name (live_headers m a))
unfolding get_header find sv
get_header-first_value m a name = ground (arith, get-find_in m.packet a name m.headers)

-- On a valid message: delete_header removes every live header of that name and no other, returns
-- whether there was one, and leaves the message valid.
pub delete_header-remove :
    (m : HmrSipMsg) (a : HmrArena) (name : Bytes)
    → IsValid m a
    → (live_headers (delete_header m a name).1 a ≡ remove name (live_headers m a))
      × ((delete_header m a name).0 ≡ has name (live_headers m a))
      × IsValid (delete_header m a name).1 a
unfolding delete_header
delete_header-remove m a name h = (
  live-delete_in m.packet a name m.headers,
  any-delete_in m.packet a name m.headers,
  record {
    fit = h.fit;
    room = omega (arith, h.room, length-delete_in m.packet a name m.headers);
    lines = lines_of m _ h.lines;
    headers = AllIn-delete_in m.packet a name m.headers h.headers;
  },
)

shown_not_null :
    (packet : Bytes) (a : HmrArena) (p : Ptr) (n : ℕ) (t : Bytes)
    → sv packet a (record { ptr = p; len = n }) ≡ t
    → (is_null p && not (length t == 0)) ≡ false
unfolding sv
shown_not_null packet a null n t e = ground (arith, ap length e)
shown_not_null packet a _ n t e = refl

not_overflowed :
    (packet : Bytes) (a : HmrArena) (s : StringView) {d : HmrStr} {a' : HmrArena}
    → Copied packet a s.text d a'
    → overflowed d s ≡ false
not_overflowed packet a s {d} {a'} c = shown_not_null packet a' d.ptr d.len s.text c.shows

overflowed-Full :
    (a : HmrArena) (s : StringView) {d : HmrStr} {a' : HmrArena}
    → IsFit a
    → Full a s.text d a'
    → overflowed d s ≡ true
overflowed-Full a s fit f = rw f.is_null (ground (arith, f.no_room))

-- The array with a header more.
pub valid_added :
    (m : HmrSipMsg) (a a' : HmrArena) (dn dv : HmrStr)
    → IsValid m a
    → length m.headers < max_headers
    → Extends a a'
    → InMemory m.packet a' dn
    → InMemory m.packet a' dv
    → IsValid
        (record m { headers = m.headers ++ record { name = dn; value = dv; removed = false } ∷ [] })
        a'
valid_added m a a' dn dv h room e n v = record {
  fit = e.fit;
  room =
      omega (
        arith,
        length-append {0} m.headers (record { name = dn; value = dv; removed = false } ∷ []),
      );
  lines = lines_of m _ (LinesIn-Extends {m = m} e h.lines);
  headers =
      AllIn-append m.packet a' m.headers _ (AllIn-Extends m.packet e m.headers h.headers)
        (record { name = n; value = v }, tt);
}

live_added :
    (m : HmrSipMsg) (a a' : HmrArena) (dn dv : HmrStr) {n v : Bytes}
    → IsValid m a
    → Extends a a'
    → sv m.packet a' dn ≡ n
    → sv m.packet a' dv ≡ v
    → live m.packet a' (m.headers ++ record { name = dn; value = dv; removed = false } ∷ [])
      ≡ live_headers m a ++ (n, v) ∷ []
live_added m a a' dn dv h e p q =
    live-append m.packet a' m.headers _
    ∙ ap₂ ◌++◌ (live-Extends m.packet e m.headers h.headers) (ap₂ (λ x y. (x, y) ∷ []) p q)

-- `need` bytes of the arena, or a place in the array, are not there.
abbrev pub NoRoom : HmrSipMsg → HmrArena → ℕ → Type 0
NoRoom m a need = (capacity < a.used + need) ⊎ (max_headers ≤ length m.headers)

-- What an operation that writes gives: done, with the specified headers; or refused for want of room,
-- with the message as it was.
abbrev pub Outcome : HmrSipMsg → HmrArena → ℕ → Headers → Bool × HmrSipMsg × HmrArena → Type 0
Outcome m a need spec r =
    IsValid r.1 r.2
    × (((r.0 ≡ true) × (live_headers r.1 r.2 ≡ spec))
        ⊎ ((r.0 ≡ false) × (r.1 ≡ m) × NoRoom m a need))

-- On a valid message, with a name and a value that lie in memory: add_header appends a live header, or
-- is refused for want of arena or array room and leaves the message as it was; the message stays valid.
pub add_header-append :
    (m : HmrSipMsg) (a : HmrArena) (name value : StringView)
    → IsValid m a
    → IsView m.packet a name
    → IsView m.packet a value
    → Outcome m a
        (length name.text + length value.text)
        (live_headers m a ++ (name.text, value.text) ∷ [])
        (add_header m name value a)
unfolding add_header
add_header-append m a name value h hn hv = elim (Bool-cases (ltb (length m.headers) max_headers)) [
  | inr full ↦ rw full (h, inr (refl, refl, inr (ltb_false→le _ _ full)))
  | inl room ↦ rw room (elim (dup-cases m.packet name a h.fit hn.small hn.inside) [
    | inr full ↦
        rw (overflowed-Full a name h.fit full)
          (rw full.same h, inr (refl, refl, inl (omega (arith, full.no_room))))
    | inl cn ↦ rw (not_overflowed m.packet a name cn) (
        let a1 = (dup name a).1 in
        elim (dup-cases m.packet value a1 cn.extends.fit hv.small
          (InMemory-Extends m.packet _ cn.extends hv.inside)) [
            | inr full ↦ rw (overflowed-Full a1 value cn.extends.fit full) (
              rw full.same (IsValid-Extends {m = m} cn.extends h),
              inr (refl, refl, inl (omega (arith, full.no_room, cn.at_most))),
            )
            | inl cv ↦
                let e = Extends-trans cn.extends cv.extends in
                rw (not_overflowed m.packet a1 value cv) (
                  valid_added m a _ _ _ h (ltb→lt _ _ room) e
                      (InMemory-Extends m.packet _ cv.extends cn.in_memory) cv.in_memory,
                  inl (
                    refl,
                    live_added m a _ _ _ h e
                        (sv-Extends m.packet _ cv.extends cn.in_memory ∙ cn.shows) cv.shows,
                  ),
                )
          ])
  ])
]

IsView-Extends :
    (packet : Bytes) {a a' : HmrArena} (s : StringView)
    → Extends a a'
    → IsView packet a s
    → IsView packet a' s
IsView-Extends packet s e h = record {
  small = h.small;
  inside = InMemory-Extends packet (record { ptr = s.ptr; len = length s.text }) e h.inside;
}

-- A step on the arena in front of an operation.
Outcome-after :
    (m : HmrSipMsg) (a a' : HmrArena) (need need' : ℕ) (spec spec' : Headers)
    (r : Bool × HmrSipMsg × HmrArena)
    → a'.used + need' ≤ a.used + need
    → spec' ≡ spec
    → Outcome m a' need' spec' r
    → Outcome m a need spec r
Outcome-after m a a' need need' spec spec' r u e (v, inl (done, p)) = (v, inl (done, p ∙ e))
Outcome-after m a a' need need' spec spec' r u e (v, inr (f, s, inl no_room)) =
    (v, inr (f, s, inl (omega arith)))
Outcome-after m a a' need need' spec spec' r u e (v, inr (f, s, inr full)) =
    (v, inr (f, s, inr full))

-- The array with one value written anew.
pub valid_written :
    (m : HmrSipMsg) (a a' : HmrArena) (d : HmrStr) (i : ℕ)
    → IsValid m a
    → Extends a a'
    → InMemory m.packet a' d
    → IsValid (record m { headers = set_value m.headers i d }) a'
valid_written m a a' d i h e k = record {
  fit = e.fit;
  room = omega (arith, h.room, length-set_value m.headers i d);
  lines = lines_of m _ (LinesIn-Extends {m = m} e h.lines);
  headers =
      AllIn-set_value m.packet a' d m.headers i k (AllIn-Extends m.packet e m.headers h.headers);
}

-- On a valid message, with a name and a value that lie in memory: set_header gives the first live
-- header of that name the value, or adds a header at the end if there is none; or it is refused, which
-- happens only if the arena has no room for the name and twice the value or the array is full, and
-- leaves the message as it was. The message stays valid.
pub set_header-set_first :
    (m : HmrSipMsg) (a : HmrArena) (name value : StringView)
    → IsValid m a
    → IsView m.packet a name
    → IsView m.packet a value
    → Outcome m a
        (length name.text + 2 * length value.text)
        (set_first name.text value.text (live_headers m a))
        (set_header m name value a)
unfolding set_header find
set_header-set_first m a name value h hn hv =
    elim (dup-cases m.packet value a h.fit hv.small hv.inside) [
      | inr full ↦
          rw (overflowed-Full a value h.fit full)
            (rw full.same h, inr (refl, refl, inl (omega (arith, full.no_room))))
      | inl cv ↦ rw (not_overflowed m.packet a value cv) (
          let a1 = (dup value a).1 in
          let same = live-Extends m.packet cv.extends m.headers h.headers in
          elim (Option-cases (find_in m.packet a1 name.text m.headers)) [
            | inl none_found ↦ rw none_found (
                Outcome-after m a a1 _ _ _ _ _ (omega (arith, cv.at_most))
                  (sym (set_first-find_none m.packet a1 name.text value.text m.headers none_found)
                    ∙ ap (set_first name.text value.text) same)
                  (add_header-append m a1 name value (IsValid-Extends {m = m} cv.extends h)
                    (IsView-Extends m.packet name cv.extends hn)
                    (IsView-Extends m.packet value cv.extends hv)))
            | inr (i, found) ↦ rw found (
              valid_written m a a1 _ i h cv.extends cv.in_memory,
              inl (
                refl,
                live-set_value m.packet a1 name.text value.text _ m.headers i cv.shows found
                    ∙ ap (set_first name.text value.text) same,
              ),
            )
          ])
    ]
