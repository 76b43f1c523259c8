-- ===== src/Sip/Valid.antt =====
-- HmrSipMsg::parse (src/runtime/sip_message.cpp): where the slices of the message lie.
use Prim.{tt}
use olproff_fastsbc_hmr.Base.{
  ℕ, zero, suc, ◌+◌, ◌-◌, ◌<◌, Bool, true, false, Option, some, ◌≡◌, refl, ap, inl, inr, arith, ltb,
  ltb→lt, leb, leb→le, ◌==◌, length, drop, length-take, length-drop, u32-le, Bool-cases,
  Option-cases,
}
use olproff_fastsbc_hmr.Text.{Bytes, codes, find, find_from, starts_with, View}
use olproff_fastsbc_hmr.Text.Bounds.{
  Within, find_lt, find_from_lt, view_trim-Within, view_substr-Within, view_from-Within,
}
use olproff_fastsbc_hmr.Arena.{HmrStr, HmrArena}
use olproff_fastsbc_hmr.Arena.Frame.{IsFit, InMemory, Extends-refl}
use olproff_fastsbc_hmr.Sip.{HmrSipMsg, max_headers}
use olproff_fastsbc_hmr.Sip.Parse.{
  trim_line, slice_of, next_line, status_line, request_line, first_line, header_line, parse_line,
  parse_loop, new_message, parse, word,
}
use olproff_fastsbc_hmr.Sip.Headers.{IsValid, valid_added}

trim_line-Within : {n : ℕ} (v : View) → Within n v → Within n (trim_line v)
unfolding trim_line
trim_line-Within v h = view_trim-Within _ _ v h

-- The message so far: valid, and of this packet.
record IsSoFar (packet : Bytes) (a : HmrArena) (m : HmrSipMsg) : Type 0 where
  valid : IsValid m a
  same : m.packet ≡ packet

word-Within :
    {n : ℕ} (t : View) (sp1 : ℕ) (sp2 : Option ℕ)
    → find b' ' t.text ≡ some sp1
    → Within n t
    → Within n (word t sp1 sp2)
word-Within t sp1 sp2 e w =
    view_substr-Within t (sp1 + 1) _ (omega (arith, find_lt b' ' t.text sp1 e)) w

-- A line lies in the packet, and the position moves on.
pub next_line-Within :
    (packet : Bytes) (pos : ℕ) (line : View) (pos' : ℕ)
    → next_line packet pos ≡ some (line, pos')
    → Within (length packet) line × (pos < pos')
unfolding next_line
next_line-Within packet pos line pos' h = elim (Bool-cases (leb (length packet) pos)) [
  | inl ended ↦ absurd (grind arith)
  | inr on ↦ elim (Option-cases (find_from b'\n' pos packet)) [
    | inl last ↦ ground (arith, length-drop pos packet, last)
    | inr (nl, found) ↦ ground (
      arith,
      found,
      find_from_lt b'\n' pos packet nl found,
      length-drop pos packet,
      length-take (nl - pos) (drop pos packet),
    )
  ]
]

module _ {packet : Bytes} {a : HmrArena} where
  slice-In :
      (m : HmrSipMsg) (v : View)
      → IsSoFar packet a m
      → Within (length packet) v
      → InMemory m.packet a (slice_of v)
  slice-In m v s w = omega (arith, u32-le (length v.text), ap length s.same)

  -- A message with other lines.
  relined :
      (m : HmrSipMsg) (r : Bool) (c : ℕ) (start method uri reason body : HmrStr)
      → IsSoFar packet a m
      → InMemory m.packet a start
      → InMemory m.packet a method
      → InMemory m.packet a uri
      → InMemory m.packet a reason
      → InMemory m.packet a body
      → IsSoFar packet a (record m {
        is_request = r;
        status_code = c;
        start_line = start;
        method = method;
        request_uri = uri;
        reason_phrase = reason;
        body = body;
      })
  relined m r c start method uri reason body s h1 h2 h3 h4 h5 = record {
    valid = record {
      fit = s.valid.fit;
      room = s.valid.room;
      lines = record {
        start_line = h1;
        method = h2;
        request_uri = h3;
        reason_phrase = h4;
        body = h5;
        mod_request_uri = s.valid.lines.mod_request_uri;
      };
      headers = s.valid.headers;
    };
    same = s.same;
  }

  status_line-IsSoFar :
      (t : View) (m : HmrSipMsg)
      → Within (length packet) t
      → IsSoFar packet a m
      → IsSoFar packet a (status_line t m)
  unfolding status_line
  status_line-IsSoFar t m w s = elim (Option-cases (find b' ' t.text)) [
    | inl absent ↦
        let l = s.valid.lines in
        rw (absent, status_line)
          (relined m _ _ _ _ _ _ _ s l.start_line l.method l.request_uri l.reason_phrase l.body)
    | inr (sp1, found) ↦
        rw (found, status_line)
          (elim (Option-cases (find_from b' ' (sp1 + 1) t.text)) [
            | inl absent ↦
                let l = s.valid.lines in
                rw absent (
                  relined m _ _ _ _ _ _ _ s l.start_line l.method l.request_uri l.reason_phrase
                    l.body)
            | inr (sp2, found2) ↦
                let l = s.valid.lines in
                let v =
                  view_from-Within t (sp2 + 1)
                    (omega (arith, find_from_lt b' ' (sp1 + 1) t.text sp2 found2)) w in
                rw found2 (
                  relined m _ _ _ _ _ _ _ s l.start_line l.method l.request_uri
                    (slice-In m _ s (trim_line-Within _ v)) l.body)
          ])
  ]

  request_line-IsSoFar :
      (t : View) (m : HmrSipMsg)
      → Within (length packet) t
      → IsSoFar packet a m
      → IsSoFar packet a (request_line t m)
  unfolding request_line
  request_line-IsSoFar t m w s = elim (Option-cases (find b' ' t.text)) [
    | inl absent ↦
        let l = s.valid.lines in
        rw (absent, request_line)
          (relined m _ _ _ _ _ _ _ s l.start_line l.method l.request_uri l.reason_phrase l.body)
    | inr (sp1, found) ↦
        let l = s.valid.lines in
        rw (found, request_line)
          (relined m _ _ _ _ _ _ _ s l.start_line
            (slice-In m _ s (view_substr-Within t 0 sp1 (omega arith) w))
            (slice-In m _ s
              (trim_line-Within _ (word-Within t sp1 (find_from b' ' (sp1 + 1) t.text) found w)))
            l.reason_phrase l.body)
  ]

  first_line-IsSoFar :
      (t : View) (m : HmrSipMsg)
      → Within (length packet) t
      → IsSoFar packet a m
      → IsSoFar packet a (first_line t m)
  unfolding first_line
  first_line-IsSoFar t m w s =
      let l = s.valid.lines in
      let s' : IsSoFar packet a (record m { start_line = slice_of t }) =
        relined m _ _ _ _ _ _ _ s (slice-In m t s w) l.method l.request_uri l.reason_phrase
          l.body in
      elim (Bool-cases (starts_with t.text (codes "SIP/"))) [
        | inl status ↦ rw status (status_line-IsSoFar t _ w s')
        | inr request ↦ rw request (request_line-IsSoFar t _ w s')
      ]

  header_line-IsSoFar :
      (line : View) (m : HmrSipMsg)
      → Within (length packet) line
      → IsSoFar packet a m
      → IsSoFar packet a (header_line line m)
  unfolding header_line
  header_line-IsSoFar line m w s = elim (Option-cases (find b':' line.text)) [
    | inl absent ↦ rw (absent, header_line) s
    | inr (colon, found) ↦
        rw (found, header_line)
          (elim (Bool-cases (ltb (length m.headers) max_headers)) [
            | inl room ↦ rw room (record {
              valid =
                  valid_added m a a _ _ s.valid (ltb→lt _ _ room) (Extends-refl s.valid.fit)
                    (slice-In m _ s
                      (trim_line-Within _ (view_substr-Within line 0 colon (omega arith) w)))
                    (slice-In m _ s (
                      trim_line-Within _ (
                        view_from-Within line (colon + 1)
                          (omega (arith, find_lt b':' line.text colon found)) w)));
              same = s.same;
            })
            | inr full ↦ rw full s
          ])
  ]

  parse_line-IsSoFar :
      (pos : ℕ) (first : Bool) (line : View) (m : HmrSipMsg)
      → Within (length packet) line
      → IsSoFar packet a m
      → IsSoFar packet a (parse_line packet pos first line m).1
  unfolding parse_line
  parse_line-IsSoFar pos true line m w s = first_line-IsSoFar _ m (trim_line-Within line w) s
  parse_line-IsSoFar pos false line m w s = elim (Bool-cases (length (trim_line line).text == 0)) [
    | inl blank ↦ rw blank (elim (Bool-cases (leb pos (length packet))) [
      | inl le ↦
          let l = s.valid.lines in
          rw le (
            relined m _ _ _ _ _ _ _ s l.start_line l.method l.request_uri l.reason_phrase (
              slice-In m _ s
                (omega (arith, length-drop pos packet, leb→le pos (length packet) le))))
      | inr beyond ↦ rw beyond s
    ])
    | inr header ↦ rw header (header_line-IsSoFar line m w s)
  ]

  parse_loop-IsSoFar :
      (fuel pos : ℕ) (first : Bool) (m : HmrSipMsg)
      → IsSoFar packet a m
      → IsSoFar packet a (parse_loop fuel packet pos first m)
  unfolding parse_loop
  parse_loop-IsSoFar zero pos first m s = s
  parse_loop-IsSoFar (suc fuel) pos first m s = elim (Option-cases (next_line packet pos)) [
    | inl ended ↦ rw (ended, parse_loop) s
    | inr ((line, pos'), more) ↦
        let s' =
          parse_line-IsSoFar pos' first line m (next_line-Within packet pos line pos' more).0 s in
        rw (more, parse_loop)
          (elim (Bool-cases (parse_line packet pos' first line m).0) [
            | inl on ↦ rw on (parse_loop-IsSoFar fuel pos' false _ s')
            | inr stop ↦ rw stop s'
          ])
  ]

-- With the arena in bounds, the message that `parse` reads off any packet is valid: it has at most 32
-- headers, and each of its slices lies in memory.
pub parse-IsValid : (packet : Bytes) (a : HmrArena) → IsFit a → IsValid (parse packet) a
unfolding parse
parse-IsValid packet a fit =
    (parse_loop-IsSoFar (length packet) 0 true (new_message packet) (record {
      valid = record {
        fit = fit;
        room = omega arith;
        lines = record {
          start_line = omega arith;
          method = omega arith;
          request_uri = omega arith;
          reason_phrase = omega arith;
          body = omega arith;
          mod_request_uri = refl;
        };
        headers = tt;
      };
      same = refl;
    })).valid
