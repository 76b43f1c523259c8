-- ===== src/Uri/Splice.antt =====
-- The rewrite of rebuild_uri (src/runtime/uri.cpp) beside what it is to replace an element.
use olproff_fastsbc_hmr.Base.{
  suc, ◌+◌, [], ◌∷◌, ◌++◌, ◌≡◌, refl, sym, ap, ◌∙◌, inl, inr, arith, length, take, drop,
  length-append, append-nil, append_assoc, Option-cases, ℕ,
}
use olproff_fastsbc_hmr.Text.{Bytes, codes, View}
use olproff_fastsbc_hmr.Text.Part.{Part}
use olproff_fastsbc_hmr.Uri.{HmrUriElement, parse_uri, Rewrite, over, rewrite_of, rewritten}
use olproff_fastsbc_hmr.Uri.Element.{Spliced, gap, IsEdited}
use olproff_fastsbc_hmr.Uri.Parts.{parse_uri_lem}

take-front : (xs ys : Bytes) → take (length xs) (xs ++ ys) ≡ xs
take-front [] ys = refl
take-front (x ∷ xs) ys = ap (λ t. x ∷ t) (take-front xs ys)

drop-front : (xs ys : Bytes) (n : ℕ) → drop (length xs + n) (xs ++ ys) ≡ drop n ys
drop-front [] ys n = let same : 0 + n ≡ n = omega arith in ap (λ k. drop k ys) same
drop-front (x ∷ xs) ys n =
    let same : length (x ∷ xs) + n ≡ suc (length xs + n) = omega arith in
    ap (λ k. drop k (x ∷ (xs ++ ys))) same ∙ drop-front xs ys n

drop-all : (n : ℕ) (s : Bytes) → n ≡ length s → drop n s ≡ []
drop-all n [] e = rw e refl
drop-all n (x ∷ s) e = rw e (drop-all (length s) s refl)

-- Cut at the ends of a part.
splice :
    (b t y pre nv post : Bytes)
    → take (length b) (b ++ (t ++ y))
        ++ (pre ++ (nv ++ (post ++ drop (length b + length t) (b ++ (t ++ y)))))
      ≡ b ++ (pre ++ (nv ++ (post ++ y)))
splice b t y pre nv post =
    let behind : drop (length t + 0) (t ++ y) ≡ y = drop-front t y 0 in
    let bare : length t + 0 ≡ length t = omega arith in
    rw (take-front b (t ++ y), drop-front b (t ++ y) (length t), ← bare, behind) refl

rewritten-splice :
    {value : Bytes} {v : View} (h : Part value v) (pre nv post : Bytes)
    → rewritten
        (record { start = v.off; stop = v.off + length v.text; pre = pre; post = post })
        value
        nv
      ≡ h.before ++ (pre ++ (nv ++ (post ++ h.behind)))
rewritten-splice {value} {v} h pre nv post =
    ap (λ s. take v.off s ++ (pre ++ (nv ++ (post ++ drop (v.off + length v.text) s)))) h.splits
    ∙ (ap
          (λ n.
            take n (h.before ++ (v.text ++ h.behind))
            ++ (pre
                ++ (nv ++ (post ++ drop (n + length v.text) (h.before ++ (v.text ++ h.behind))))))
          (sym h.at)
        ∙ splice h.before v.text h.behind pre nv post)

over-Spliced :
    {value : Bytes} (v : View) (r : Rewrite) (nv : Bytes)
    → Part value v
    → r ≡ over v
    → Spliced value v nv (rewritten r value nv)
over-Spliced {value} v r nv h cut = record {
  part = h;
  text = ap (λ r. rewritten r value nv) cut ∙ rewritten-splice h [] nv [];
}

abbrev insertion : ℕ → Bytes → Bytes → Rewrite
insertion n pre post = record { start = n; stop = n; pre = pre; post = post }

front-Part : {value : Bytes} (v : View) → Part value v → Part value (gap v.off)
front-Part v h = record {
  before = h.before;
  behind = v.text ++ h.behind;
  splits = h.splits;
  at = h.at;
}

back-Part : {value : Bytes} (v : View) → Part value v → Part value (gap (v.off + length v.text))
back-Part v h = record {
  before = h.before ++ v.text;
  behind = h.behind;
  splits = h.splits ∙ simp append_assoc;
  at = omega (arith, length-append h.before v.text, h.at);
}

-- What is put in at an offset: the rewrite stops where it starts.
gap-text :
    {value : Bytes} {n : ℕ} (h : Part value (gap n)) (pre nv post : Bytes)
    → rewritten (record { start = n; stop = n; pre = pre; post = post }) value nv
      ≡ h.before ++ (pre ++ (nv ++ (post ++ h.behind)))
gap-text {value} {n} h pre nv post =
    let bare : n + 0 ≡ n = omega arith in
    ap (λ k. take n value ++ (pre ++ (nv ++ (post ++ drop k value)))) (sym bare)
    ∙ rewritten-splice h pre nv post

replaced_all :
    (value nv : Bytes)
    → rewritten (record { start = 0; stop = length value; pre = []; post = [] }) value nv ≡ nv
replaced_all value nv = rw (drop-all (length value) value refl) (append-nil nv)

pub rewritten-IsEdited :
    (value : Bytes) (e : HmrUriElement) (nv : Bytes)
    → IsEdited value e nv (rewritten (rewrite_of value e) value nv)
unfolding rewrite_of
rewritten-IsEdited value HmrUriElement.whole nv = replaced_all value nv
rewritten-IsEdited value HmrUriElement.other nv = replaced_all value nv
rewritten-IsEdited value HmrUriElement.host nv = over-Spliced _ _ nv (parse_uri_lem value).host refl
rewritten-IsEdited value HmrUriElement.user nv = elim (Option-cases (parse_uri value).user) [
  | inl absent ↦
      let part = front-Part (parse_uri value).host (parse_uri_lem value).host in
      let cut : rewrite_of value HmrUriElement.user
          ≡ insertion (parse_uri value).host.off [] (codes "@") =
        rw (absent, rewrite_of) refl in
      rw (absent, IsEdited)
        (record {
          part = part;
          text =
              ap (λ r. rewritten r value nv) cut
              ∙ (gap-text part [] nv (codes "@") ∙ simp append_assoc);
        })
  | inr (v, found) ↦
      let part : Part value v = rw found at (parse_uri_lem value).user in
      let cut : rewrite_of value HmrUriElement.user ≡ over v = rw (found, rewrite_of) refl in
      rw (found, IsEdited) (over-Spliced v _ nv part cut)
]
rewritten-IsEdited value HmrUriElement.port nv = elim (Option-cases (parse_uri value).port) [
  | inl absent ↦
      let part = back-Part (parse_uri value).host (parse_uri_lem value).host in
      let cut : rewrite_of value HmrUriElement.port
          ≡ insertion ((parse_uri value).host.off + length (parse_uri value).host.text) (codes ":")
              [] =
        rw (absent, rewrite_of) refl in
      rw (absent, IsEdited)
        (record {
          part = part;
          text = ap (λ r. rewritten r value nv) cut ∙ gap-text part (codes ":") nv [];
        })
  | inr (v, found) ↦
      let part : Part value v = rw found at (parse_uri_lem value).port in
      let cut : rewrite_of value HmrUriElement.port ≡ over v = rw (found, rewrite_of) refl in
      rw (found, IsEdited) (over-Spliced v _ nv part cut)
]
rewritten-IsEdited value HmrUriElement.display nv = elim (Option-cases (parse_uri value).display) [
  | inl absent ↦
      let cut : rewrite_of value HmrUriElement.display ≡ insertion 0 [] (codes " ") =
        rw (absent, rewrite_of) refl in
      rw (absent, IsEdited) (ap (λ r. rewritten r value nv) cut)
  | inr (v, found) ↦
      let part : Part value v = rw found at (parse_uri_lem value).display in
      let cut : rewrite_of value HmrUriElement.display ≡ over v = rw (found, rewrite_of) refl in
      rw (found, IsEdited) (over-Spliced v _ nv part cut)
]
