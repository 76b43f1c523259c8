-- ===== src/Runtime.antt =====
-- src/runtime/runtime.cpp and include/hmr/runtime/context.hpp: the per-worker context and the C ABI
-- that a compiled module and the interpreter call. A handle that may be null is an `Option`. std::regex
-- is not part of the repository: its compiled form `R` and the operations on it are parameters.
pub mod Message
pub mod Matching
pub mod Builder
use olproff_fastsbc_hmr.Base.{
  ℕ, ◌+◌, ◌%◌, Bool, true, false, not, ◌&&◌, ◌||◌, Option, none, some, List, [], ◌∷◌, ◌++◌, ltb,
  leb, ◌==◌, if◌then◌else◌, length, get_or, set, replicate, map,
}
use olproff_fastsbc_hmr.Text.{Bytes, same_text, iequals, View}
use olproff_fastsbc_hmr.Arena.{HmrStr, null_str, HmrArena, reset, sv, view, to_str}
use olproff_fastsbc_hmr.Uri
use olproff_fastsbc_hmr.Uri.{HmrUriElement, parse_uri, rebuild_uri}
use olproff_fastsbc_hmr.Sip
use olproff_fastsbc_hmr.Sip.{HmrSipMsg}
use olproff_fastsbc_hmr.Sip.Field
use olproff_fastsbc_hmr.Sip.Field.{HmrField, slice_in}
use olproff_fastsbc_hmr.Match.{match_exact, match_ip, match_ip_mask, match_ip_range, match_fqdn}

-- `last_match` holds the sub-matches of the last search, `none` for a group that took no part.
pub record HmrContext (R : Type 0) : Type 0 where
  pub arena : HmrArena
  pub vars : List Bytes
  pub regexes : List R
  pub slots : List Bytes
  pub last_match : List (Option HmrStr)
  pub has_match : Bool
  pub scratch : Bytes
  pub logs : List Bytes
  pub rejected : Bool
  pub reject_code : ℕ
  pub reject_reason : Bytes

-- HMR_VAR_MAX
abbrev pub var_max : ℕ
var_max = 15

pub record HmrRegexEntry : Type 0 where
  pub pattern : Bytes
  pub flags : ℕ

pub record HmrModuleInfo : Type 0 where
  pub abi_version : ℕ
  pub name : Bytes
  pub num_slots : ℕ
  pub regexes : List HmrRegexEntry

-- HmrMatchType; `other` is any code that is none of its enumerators.
pub data HmrMatchType : Type 0 where
  exact exact_ci regex ip ip_mask ip_range fqdn other : HmrMatchType

module _ {R : Type 0} where
  unfoldable pub set_var : ℕ → Bytes → HmrContext R → HmrContext R
  set_var id value c =
      if ltb 0 id && ltb id var_max then record c { vars = set c.vars id value } else c

  unfoldable pub reset_for_apply : HmrContext R → HmrContext R
  unfolding reset
  reset_for_apply c = record c {
    arena = reset c.arena;
    has_match = false;
    scratch = [];
    logs = [];
    rejected = false;
    reject_code = 0;
    reject_reason = [];
  }

-- The constructor of std::regex, from a pattern and whether case is ignored: `none` is a thrown
-- std::regex_error.
module _ {R : Type 0} (compile : Bytes → Bool → Option R) where
  unfoldable pub build_regexes : List HmrRegexEntry → Option (List R)
  build_regexes [] = some []
  build_regexes (e ∷ es) = elim (compile e.pattern (e.flags % 2 == 1)) [
    | none ↦ none
    | some r ↦ elim (build_regexes es) [ none ↦ none | some rs ↦ some (r ∷ rs) ]
  ]

  unfoldable pub prepare : HmrModuleInfo → HmrContext R → Option (HmrContext R)
  unfolding build_regexes
  prepare info c = elim (build_regexes info.regexes) [
    | none ↦ none
    | some rs ↦ some (record c { regexes = rs; slots = replicate info.num_slots [] })
  ]
