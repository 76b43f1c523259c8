-- ===== src/Tests/Message.antt =====
-- The runtime: messages, URIs and addresses.
use olproff_fastsbc_hmr.Base.{
  true, ◌≡◌, ◌<◌, ◌^◌, ◌++◌, ◌∷◌, [], refl, arith, u32, add32, sub32, length, if◌then◌else◌,
}
use olproff_fastsbc_hmr.Text.{Bytes, codes, iequals}
use olproff_fastsbc_hmr.Arena.{HmrArena, sv, literal, StringView}
use olproff_fastsbc_hmr.Sip.{set_header, get_header, add_header, delete_header, HmrSipMsg}
use olproff_fastsbc_hmr.Sip.Spec.{set_first, remove, has}
use olproff_fastsbc_hmr.Sip.Headers.{
  IsValid, IsView, Outcome, live_headers, set_header-set_first, add_header-append,
  delete_header-remove,
}
use olproff_fastsbc_hmr.Sip.Laws.{get_header-set_header, get_header-delete_header}
use olproff_fastsbc_hmr.Sip.Wire.{Serialized, serialize-wire, wire}
use olproff_fastsbc_hmr.Sip.Valid.{parse-IsValid}
use olproff_fastsbc_hmr.Sip.Fuel.{parse-fuel}
use olproff_fastsbc_hmr.Sip.Field.{get_field, set_field, HmrField}
use olproff_fastsbc_hmr.Sip.Parse.{parse, parse_loop, new_message}
use olproff_fastsbc_hmr.Sip.Serialize.{serialize}
use olproff_fastsbc_hmr.Uri.{HmrUriElement, parse_uri, rebuild_uri}
use olproff_fastsbc_hmr.Uri.Element.{IsEdited}
use olproff_fastsbc_hmr.Uri.Rebuild.{Rebuilt, rebuild_uri-rewritten}
use olproff_fastsbc_hmr.Uri.Read.{IsParsed, parse_uri-IsParsed}
use olproff_fastsbc_hmr.Match.{match_ip_mask, match_ip_range}
use olproff_fastsbc_hmr.Lowering.{count_capturing_groups, to_string}

abbrev empty_arena : HmrArena
empty_arena = record { buffer = λ _. 0; used = 0 }

abbrev packet : Bytes
packet =
    codes
      "INVITE sip:bob@example.com SIP/2.0\r\nFrom: \"Al\" <sip:al@a.com:5060;x=1>\r\nX-A: 1\r\n\r\nhi"

abbrev wire_after_set : Bytes
wire_after_set =
    let (d, m, a) =
      set_header (parse packet) (literal (codes "x-a")) (literal (codes "22")) empty_arena in
    let (o, m', a') = set_field m HmrField.request_uri_host (codes "h.net") a in
    let (s, a'') = serialize m' a' in sv packet a'' s

set_then_serialize :
    wire_after_set
    ≡ codes
        "INVITE sip:bob@h.net SIP/2.0\r\nFrom: \"Al\" <sip:al@a.com:5060;x=1>\r\nX-A: 22\r\n\r\nhi"
unfolding parse set_header serialize sv set_field u32 add32 sub32
set_then_serialize = refl

from_user :
    sv packet empty_arena (get_field (parse packet) empty_arena HmrField.from_user) ≡ codes "al"
unfolding parse get_field sv u32 add32 sub32
from_user = refl

mask : match_ip_mask (codes "10.1.2.3") (codes "10.0.0.0/255.128.0.0") ≡ true
unfolding match_ip_mask u32 add32 sub32
mask = refl

mask6 : match_ip_mask (codes "2001:db8::7") (codes "2001:db8::/32") ≡ true
unfolding match_ip_mask u32 add32 sub32
mask6 = refl

range : match_ip_range (codes "10.1.2.3") (codes "10.1.2.2-10.1.3.0") ≡ true
unfolding match_ip_range
range = refl

groups : count_capturing_groups (codes "(a)(?:b)(?<n>c)[(]\\((?=d)") ≡ 2
unfolding count_capturing_groups
groups = refl

dec : to_string 5060 ≡ codes "5060"
unfolding to_string
dec = refl

-- The message of the packet above, over an arena with nothing in use.
abbrev invite : HmrSipMsg
invite = parse packet

invite-IsValid : IsValid invite empty_arena
invite-IsValid = parse-IsValid packet empty_arena (omega arith)

abbrev x_a : StringView
x_a = literal (codes "x-a")

abbrev value_22 : StringView
value_22 = literal (codes "22")

x_a-IsView : IsView invite.packet empty_arena x_a
x_a-IsView = record { small = omega arith; inside = omega arith }

value_22-IsView : IsView invite.packet empty_arena value_22
value_22-IsView = record { small = omega arith; inside = omega arith }

set_header-set_first_example :
    Outcome invite empty_arena 7
      (set_first (codes "x-a") (codes "22") (live_headers invite empty_arena))
      (set_header invite x_a value_22 empty_arena)
set_header-set_first_example =
    set_header-set_first invite empty_arena x_a value_22 invite-IsValid x_a-IsView value_22-IsView

add_header-append_example :
    Outcome invite empty_arena 5
      (live_headers invite empty_arena ++ (codes "x-a", codes "22") ∷ [])
      (add_header invite x_a value_22 empty_arena)
add_header-append_example =
    add_header-append invite empty_arena x_a value_22 invite-IsValid x_a-IsView value_22-IsView

delete_header-remove_example :
    (live_headers (delete_header invite empty_arena (codes "FROM")).1 empty_arena
      ≡ remove (codes "FROM") (live_headers invite empty_arena))
    × ((delete_header invite empty_arena (codes "FROM")).0
        ≡ has (codes "FROM") (live_headers invite empty_arena))
    × IsValid (delete_header invite empty_arena (codes "FROM")).1 empty_arena
delete_header-remove_example = delete_header-remove invite empty_arena (codes "FROM") invite-IsValid

set_header_succeeds : (set_header invite x_a value_22 empty_arena).0 ≡ true
unfolding parse set_header u32 add32 sub32
set_header_succeeds = refl

get_header-set_header_example :
    (let r = set_header invite x_a value_22 empty_arena in
      sv r.1.packet r.2 (get_header r.1 r.2 (codes "X-a")))
    ≡ (if iequals (codes "x-a") (codes "X-a")
        then codes "22"
        else sv invite.packet empty_arena (get_header invite empty_arena (codes "X-a")))
get_header-set_header_example =
    get_header-set_header invite empty_arena x_a value_22 (codes "X-a") invite-IsValid x_a-IsView
      value_22-IsView set_header_succeeds

get_header-delete_header_example :
    (let m' = (delete_header invite empty_arena (codes "FROM")).1 in
      sv m'.packet empty_arena (get_header m' empty_arena (codes "from")))
    ≡ (if iequals (codes "FROM") (codes "from")
        then []
        else sv invite.packet empty_arena (get_header invite empty_arena (codes "from")))
get_header-delete_header_example =
    get_header-delete_header invite empty_arena (codes "FROM") (codes "from") invite-IsValid

wire-small : length (wire invite empty_arena) < 2 ^ 32
unfolding parse sv u32 add32 sub32
wire-small = omega arith

serialize-wire_example : Serialized invite empty_arena (serialize invite empty_arena)
serialize-wire_example = serialize-wire invite empty_arena invite-IsValid wire-small

parse-IsValid_example : IsValid (parse packet) empty_arena
parse-IsValid_example = parse-IsValid packet empty_arena (omega arith)

parse-fuel_example : parse_loop 1000 packet 0 true (new_message packet) ≡ parse packet
parse-fuel_example = parse-fuel packet 1000 (omega arith)

abbrev new_host : Bytes
new_host = codes "h.net"

abbrev address : Bytes
address = codes "\"Al\" <sip:al@a.com:5060;x=1>"

rebuild_uri-rewritten_example :
    (t : Bytes) × IsEdited address HmrUriElement.port (codes "5070") t
    × Rebuilt packet empty_arena t
        (rebuild_uri empty_arena address HmrUriElement.port (codes "5070"))
rebuild_uri-rewritten_example =
    rebuild_uri-rewritten packet empty_arena address HmrUriElement.port (codes "5070") (omega arith)
      (omega arith)

parse_uri-IsParsed_example : IsParsed address (parse_uri address)
parse_uri-IsParsed_example = parse_uri-IsParsed address
