-- ===== src/Tests/Addresses.antt =====
-- The matchers: addresses and texts.
use olproff_fastsbc_hmr.Base.{◌+◌, true, false, none, some, ◌≡◌, [], ◌∷◌, take, drop, map}
use mathlib.Core.Logic.{◌↔◌}
use olproff_fastsbc_hmr.Text.{codes, find, trim, to_lower}
use olproff_fastsbc_hmr.Match.{match_exact, match_ip_range}
use olproff_fastsbc_hmr.Match.Address.{parse_ip, octet_end, v6_token}
use olproff_fastsbc_hmr.Match.Bounds.{Address, EndsWithin, parse_ip-Address}
use olproff_fastsbc_hmr.Match.Range.{in_range, match_ip_range-in_range}
use olproff_fastsbc_hmr.Match.Text.{match_exact_iff}

match_ip_range-in_range_example :
    match_ip_range (codes "10.1.2.3") (codes "10.1.2.2 - 10.1.3.0")
    ≡ elim (find b'-' (codes "10.1.2.2 - 10.1.3.0")) [
      | none ↦ false
      | some dash ↦
          in_range
            (parse_ip (trim (take dash (codes "10.1.2.2 - 10.1.3.0"))))
            (parse_ip (trim (drop (dash + 1) (codes "10.1.2.2 - 10.1.3.0"))))
            (parse_ip (codes "10.1.2.3"))
    ]
match_ip_range-in_range_example =
    match_ip_range-in_range (codes "10.1.2.3") (codes "10.1.2.2 - 10.1.3.0")

parse_ip-Address_example :
    Address 16 (parse_ip (codes "2001:db8::1.2.3.4")).bytes
    × EndsWithin 4 (octet_end (1 ∷ 2 ∷ 3 ∷ []) (codes "4"))
    × EndsWithin 16 (v6_token true (1 ∷ 2 ∷ 3 ∷ []) (codes "4"))
parse_ip-Address_example =
    parse_ip-Address (codes "2001:db8::1.2.3.4") (1 ∷ 2 ∷ 3 ∷ []) (codes "4") true

match_exact_iff_example :
    ((match_exact (codes "Via") (codes "VIA") false ≡ true) ↔ (codes "Via" ≡ codes "VIA"))
    × ((match_exact (codes "Via") (codes "VIA") true ≡ true)
        ↔ (map to_lower (codes "Via") ≡ map to_lower (codes "VIA")))
match_exact_iff_example = match_exact_iff (codes "Via") (codes "VIA")
