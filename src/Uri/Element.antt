-- ===== src/Uri/Element.antt =====
-- The elements of a SIP URI value, and what it is to replace one.
use olproff_fastsbc_hmr.Base.{ℕ, ◌+◌, none, some, [], ◌++◌, ◌≡◌, length}
use olproff_fastsbc_hmr.Text.{Bytes, codes, View}
use olproff_fastsbc_hmr.Text.Part.{Part}
use olproff_fastsbc_hmr.Uri.{HmrUriElement, parse_uri}

-- `t` is the value with `nv` in the place of the view.
pub record Spliced (value : Bytes) (v : View) (nv t : Bytes) : Type 0 where
  pub part : Part value v
  pub text : t ≡ part.before ++ (nv ++ part.behind)

-- Nothing, at an offset.
abbrev pub gap : ℕ → View
gap n = record { off = n; text = [] }

-- `t` is the value with the element replaced by `nv`: the bytes of the component that parse_uri finds,
-- or, where there is no such component, `nv@` in front of the host, `:nv` behind the host, or `nv` and a
-- blank in front of everything. Any other code replaces all of the value.
abbrev pub IsEdited : Bytes → HmrUriElement → Bytes → Bytes → Type 0
IsEdited value HmrUriElement.whole nv t = t ≡ nv
IsEdited value HmrUriElement.other nv t = t ≡ nv
IsEdited value HmrUriElement.host nv t = Spliced value (parse_uri value).host nv t
IsEdited value HmrUriElement.user nv t = elim (parse_uri value).user [
  | some v ↦ Spliced value v nv t
  | none ↦ Spliced value (gap (parse_uri value).host.off) (nv ++ codes "@") t
]
IsEdited value HmrUriElement.port nv t = elim (parse_uri value).port [
  | some v ↦ Spliced value v nv t
  | none ↦
      Spliced value (gap ((parse_uri value).host.off + length (parse_uri value).host.text))
        (codes ":" ++ nv) t
]
IsEdited value HmrUriElement.display nv t = elim (parse_uri value).display [
  | some v ↦ Spliced value v nv t
  | none ↦ t ≡ nv ++ (codes " " ++ value)
]
