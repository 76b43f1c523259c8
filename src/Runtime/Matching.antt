-- ===== src/Runtime/Matching.antt =====
-- The comparisons of the C ABI and the captures of a regex match (src/runtime/runtime.cpp). Strings
-- point into the packet `packet` and the arena `a`.
use mathlib.Core.Option
use olproff_fastsbc_hmr.Base.{
  ℕ, Bool, true, false, Option, none, some, List, [], if◌then◌else◌, get_elem?, map,
}
use olproff_fastsbc_hmr.Text.{Bytes, same_text, iequals, View}
use olproff_fastsbc_hmr.Arena.{null, host, HmrStr, null_str, HmrArena, sv}
use olproff_fastsbc_hmr.Sip.Field.{slice_in}
use olproff_fastsbc_hmr.Match.{match_exact, match_ip, match_ip_mask, match_ip_range, match_fqdn}
use olproff_fastsbc_hmr.Runtime.{
  HmrContext, HmrMatchType, exact, exact_ci, regex, ip, ip_mask, ip_range, fqdn, other,
}

module _ (packet : Bytes) (a : HmrArena) where
  unfoldable pub str_eq : HmrStr → HmrStr → Bool → Bool
  unfolding iequals same_text sv
  str_eq s t case_insensitive =
      if case_insensitive
      then iequals (sv packet a s) (sv packet a t)
      else same_text (sv packet a s) (sv packet a t)

-- std::regex_search: the views of the sub-matches in the subject, or `none`.
abbrev pub Search : Type 0 → Type 0
Search R = R → Bytes → Option (List (Option View))

-- `subject.data ? subject.data : ""`
abbrev based : HmrStr → HmrStr
based s = elim s.ptr [ null ↦ record s { ptr = host [] } | _ ↦ s ]

module _ {R : Type 0} (search_in : Search R) (packet : Bytes) (a : HmrArena) where
  abbrev matched : HmrContext R → HmrStr → Option (List (Option View)) → Bool × HmrContext R
  matched c subject none = (false, record c { last_match = []; has_match = false })
  matched c subject (some subs) = (
    true,
    record c { last_match = map (Option.map (slice_in (based subject))) subs; has_match = true },
  )

  abbrev searched : HmrContext R → HmrStr → Option R → Bool × HmrContext R
  searched c subject none = (false, c)
  searched c subject (some r) = matched c subject (search_in r (sv packet a subject))

  unfoldable pub regex_match : Option (HmrContext R) → ℕ → HmrStr → Bool × Option (HmrContext R)
  unfolding sv
  regex_match none regex_id subject = (false, none)
  regex_match (some c) regex_id subject =
      let (r, c') = searched c subject (get_elem? c.regexes regex_id) in (r, some c')

  -- hmr_rt_match
  unfoldable pub match_value :
      Option (HmrContext R) → HmrMatchType → HmrStr → HmrStr → ℕ → Bool × Option (HmrContext R)
  unfolding regex_match match_exact match_ip match_ip_mask match_ip_range match_fqdn sv
  match_value c t subject pattern regex_id =
      let s = sv packet a subject in
      let p = sv packet a pattern in
      elim t [
        | exact ↦ (match_exact s p false, c)
        | exact_ci ↦ (match_exact s p true, c)
        | regex ↦ regex_match c regex_id subject
        | ip ↦ (match_ip s p, c)
        | ip_mask ↦ (match_ip_mask s p, c)
        | ip_range ↦ (match_ip_range s p, c)
        | fqdn ↦ (match_fqdn s p, c)
        | other ↦ (false, c)
      ]

abbrev capture_of : Option (Option HmrStr) → HmrStr
capture_of (some (some s)) = s
capture_of _ = null_str

module _ {R : Type 0} where
  unfoldable pub get_capture : Option (HmrContext R) → ℕ → HmrStr
  get_capture none index = null_str
  get_capture (some c) index =
      if c.has_match then capture_of (get_elem? c.last_match index) else null_str
