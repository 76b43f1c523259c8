-- ===== src/Sip/Parse.antt =====
-- HmrSipMsg::parse (src/runtime/sip_message.cpp): a loop over the lines of the packet. A line is a
-- view into it.
use olproff_fastsbc_hmr.Base.{
  ℕ, zero, suc, ◌+◌, ◌-◌, ◌*◌, Bool, true, false, ◌&&◌, ◌||◌, Option, none, some, [], ◌∷◌, ◌++◌,
  ltb, leb, ◌==◌, if◌then◌else◌, length, take, drop, u32, add32,
}
use olproff_fastsbc_hmr.Text.{
  Bytes, codes, find, find_from, starts_with, View, view_substr, view_from, view_trim, is_blank,
}
use olproff_fastsbc_hmr.Arena.{raw, HmrStr, null_str}
use olproff_fastsbc_hmr.Sip.{Header, max_headers, HmrSipMsg}

unfoldable pub is_blank_or_cr : ℕ → Bool
unfolding is_blank
is_blank_or_cr c = is_blank c || c == b'\r'

unfoldable pub trim_line : View → View
unfolding view_trim is_blank is_blank_or_cr
trim_line = view_trim is_blank is_blank_or_cr

-- Slice::of a view of the packet
abbrev pub slice_of : View → HmrStr
slice_of v = record { ptr = raw v.off; len = u32 (length v.text) }

-- The line from `pos` on, and the position behind it; `none` at the end.
unfoldable pub next_line : Bytes → ℕ → Option (View × ℕ)
unfolding find_from find
next_line packet pos = if leb (length packet) pos then none else elim (find_from b'\n' pos packet) [
  | none ↦ some (record { off = pos; text = drop pos packet }, length packet + 1)
  | some nl ↦ some (record { off = pos; text = take (nl - pos) (drop pos packet) }, nl + 1)
]

-- `for (char c : code) if (digit) status_code = status_code * 10 + digit;`
unfoldable pub status_of : ℕ → Bytes → ℕ
status_of acc [] = acc
status_of acc (c ∷ cs) =
    status_of (if leb b'0' c && leb c b'9' then u32 (add32 (u32 (acc * 10)) (c - b'0')) else acc) cs

-- Where the word behind the first space ends.
abbrev pub word_end : View → Option ℕ → ℕ
word_end t none = length t.text
word_end t (some sp2) = sp2

-- The word behind the space at `sp1`.
abbrev pub word : View → ℕ → Option ℕ → View
word t sp1 sp2 = view_substr t (sp1 + 1) (word_end t sp2 - sp1 - 1)

unfoldable pub status_line : View → HmrSipMsg → HmrSipMsg
unfolding find find_from status_of trim_line
status_line t m = elim (find b' ' t.text) [
  | none ↦ record m { is_request = false }
  | some sp1 ↦
      let sp2 = find_from b' ' (sp1 + 1) t.text in
      record m {
        is_request = false;
        status_code = status_of 0 (word t sp1 sp2).text;
        reason_phrase = elim sp2 [
          | none ↦ m.reason_phrase
          | some sp ↦ slice_of (trim_line (view_from t (sp + 1)))
        ];
      }
]

unfoldable pub request_line : View → HmrSipMsg → HmrSipMsg
unfolding find find_from trim_line
request_line t m = elim (find b' ' t.text) [
  | none ↦ record m { is_request = true }
  | some sp1 ↦ record m {
    is_request = true;
    method = slice_of (view_substr t 0 sp1);
    request_uri = slice_of (trim_line (word t sp1 (find_from b' ' (sp1 + 1) t.text)));
  }
]

unfoldable pub first_line : View → HmrSipMsg → HmrSipMsg
unfolding status_line request_line starts_with
first_line t m =
    let m' = record m { start_line = slice_of t } in
    if starts_with t.text (codes "SIP/") then status_line t m' else request_line t m'

unfoldable pub header_line : View → HmrSipMsg → HmrSipMsg
unfolding find trim_line
header_line line m = elim (find b':' line.text) [
  | none ↦ m
  | some colon ↦
      let name = trim_line (view_substr line 0 colon) in
      let value = trim_line (view_from line (colon + 1)) in
      let h : Header = record { name = slice_of name; value = slice_of value; removed = false } in
      if ltb (length m.headers) max_headers then record m { headers = m.headers ++ h ∷ [] } else m
]

-- The body of the loop: whether it goes on, and the message. `pos` is behind the line.
unfoldable pub parse_line : Bytes → ℕ → Bool → View → HmrSipMsg → Bool × HmrSipMsg
unfolding first_line header_line trim_line
parse_line packet pos first line m =
    let t = trim_line line in
    if first
    then (true, first_line t m)
    else if length t.text == 0
    then (
      false,
      if leb pos (length packet)
          then record m { body = slice_of (record { off = pos; text = drop pos packet }) }
          else m,
    )
    else (true, header_line line m)

-- Each round moves `pos`, so that the size of the packet is fuel enough.
unfoldable pub parse_loop : ℕ → Bytes → ℕ → Bool → HmrSipMsg → HmrSipMsg
unfolding next_line parse_line
parse_loop zero packet pos first m = m
parse_loop (suc fuel) packet pos first m = elim (next_line packet pos) [
  | none ↦ m
  | some (line, pos') ↦
      let (more, m') = parse_line packet pos' first line m in
      elim more [ true ↦ parse_loop fuel packet pos' false m' | false ↦ m' ]
]

abbrev pub new_message : Bytes → HmrSipMsg
new_message packet = record {
  packet = packet;
  headers = [];
  is_request = true;
  start_line = null_str;
  method = null_str;
  request_uri = null_str;
  status_code = 0;
  reason_phrase = null_str;
  body = null_str;
  mod_request_uri = null_str;
}

unfoldable pub parse : Bytes → HmrSipMsg
unfolding parse_loop
parse packet = parse_loop (length packet) packet 0 true (new_message packet)
