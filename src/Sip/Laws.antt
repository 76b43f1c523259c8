-- ===== src/Sip/Laws.antt =====
-- What a client of the header operations (src/runtime/sip_message.cpp) reads.
use mathlib.Core.Bool.{false≢true}
use olproff_fastsbc_hmr.Base.{
  Bool, true, Option, none, some, [], ◌∷◌, ◌≡◌, refl, sym, ap, ◌∙◌, inl, inr, arith, if◌then◌else◌,
  Bool-cases,
}
use olproff_fastsbc_hmr.Text.{Bytes, iequals}
use olproff_fastsbc_hmr.Text.Fold.{iequals_cong, iequals_apart}
use olproff_fastsbc_hmr.Arena.{StringView, HmrArena, sv}
use olproff_fastsbc_hmr.Sip.{HmrSipMsg, get_header, set_header, delete_header}
use olproff_fastsbc_hmr.Sip.Spec.{Headers, first_value, set_first, remove}
use olproff_fastsbc_hmr.Sip.Headers.{
  IsValid, IsView, or_empty, get_header-first_value, delete_header-remove, set_header-set_first,
}

first_value-set_first :
    (k n v : Bytes) (hs : Headers)
    → first_value k (set_first n v hs) ≡ (if iequals n k then some v else first_value k hs)
unfolding first_value set_first
first_value-set_first k n v [] = refl
first_value-set_first k n v ((n0, w) ∷ hs) = elim (Bool-cases (iequals n0 n)) [
  | inl same ↦ rw (same, iequals_cong n0 n k same) (ground arith)
  | inr differs ↦ rw differs (ground (arith, first_value-set_first k n v hs, iequals_apart n0 n k))
]

first_value-remove :
    (k n : Bytes) (hs : Headers)
    → first_value k (remove n hs) ≡ (if iequals n k then none else first_value k hs)
unfolding first_value remove
first_value-remove k n [] = ground arith
first_value-remove k n ((n0, w) ∷ hs) =
    ground (arith, first_value-remove k n hs, iequals_apart n0 n k, iequals_cong n0 n k)

read_back :
    (b : Bool) (v : Bytes) (o o' : Option Bytes) {w : Bytes}
    → o ≡ (if b then some v else o')
    → or_empty o' ≡ w
    → or_empty o ≡ (if b then v else w)
read_back b v o o' e f = ground arith

read_none :
    (b : Bool) (o o' : Option Bytes) {w : Bytes}
    → o ≡ (if b then none else o')
    → or_empty o' ≡ w
    → or_empty o ≡ (if b then [] else w)
read_none b o o' e f = ground arith

-- On a valid message, with a name and a value that lie in memory: behind a set_header that succeeded,
-- a lookup of a name that equals the one set, letter case apart, reads the new value, and a lookup of
-- any other name reads what it read before.
pub get_header-set_header :
    (m : HmrSipMsg) (a : HmrArena) (name value : StringView) (k : Bytes)
    → IsValid m a
    → IsView m.packet a name
    → IsView m.packet a value
    → (set_header m name value a).0 ≡ true
    → (let r = set_header m name value a in sv r.1.packet r.2 (get_header r.1 r.2 k))
      ≡ (if iequals name.text k then value.text else sv m.packet a (get_header m a k))
get_header-set_header m a name value k h hn hv done =
    let r = set_header m name value a in
    elim (set_header-set_first m a name value h hn hv).1 [
      | inl (_, spec) ↦
          get_header-first_value r.1 r.2 k
          ∙ ap (λ l. or_empty (first_value k l)) spec
          ∙ read_back (iequals name.text k) value.text _ _
              (first_value-set_first k name.text value.text _) (sym (get_header-first_value m a k))
      | inr (failed, _, _) ↦ absurd (false≢true (sym failed ∙ done))
    ]

-- On a valid message: behind delete_header a lookup of a name that equals the deleted one, letter case
-- apart, reads nothing, and a lookup of any other name reads what it read before.
pub get_header-delete_header :
    (m : HmrSipMsg) (a : HmrArena) (name k : Bytes)
    → IsValid m a
    → (let m' = (delete_header m a name).1 in sv m'.packet a (get_header m' a k))
      ≡ (if iequals name k then [] else sv m.packet a (get_header m a k))
get_header-delete_header m a name k h =
    get_header-first_value (delete_header m a name).1 a k
    ∙ ap (λ l. or_empty (first_value k l)) (delete_header-remove m a name h).0
    ∙ read_none (iequals name k) _ _ (first_value-remove k name _)
        (sym (get_header-first_value m a k))
