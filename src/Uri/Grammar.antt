-- ===== src/Uri/Grammar.antt =====
-- parse_uri of src/runtime/uri.cpp: the form of the value that it reads, [display] "<" address ">" or an
-- address alone, with address = [scheme ":"] [user "@"] host [":" port] [tail].
use olproff_fastsbc_hmr.Base.{
  ℕ, suc, Bool, true, false, not, ◌&&◌, ◌||◌, Option, none, some, [], ◌∷◌, ◌++◌, ◌==◌, ◌≡◌, ◌⊎◌,
  length,
}
use olproff_fastsbc_hmr.Text.{Bytes, codes, starts_with, trim, View}
use olproff_fastsbc_hmr.Uri.{quoted}

-- The byte is not in the text.
unfoldable pub absent : ℕ → Bytes → Bool
absent c [] = true
absent c (x ∷ xs) = not (x == c) && absent c xs

-- A byte that ends host and port.
abbrev pub ends_host : ℕ → Bool
ends_host x = x == b';' || x == b'?' || x == b'>'

unfoldable pub plain_host : Bytes → Bool
plain_host [] = true
plain_host (x ∷ xs) = not (ends_host x) && plain_host xs

abbrev pub begins : (ℕ → Bool) → Bytes → Bool
begins p [] = false
begins p (x ∷ xs) = p x

abbrev pub has_scheme : Bytes → Bool
has_scheme s =
    starts_with s (codes "sip:") || starts_with s (codes "sips:") || starts_with s (codes "tel:")

-- inner = [scheme ":"] rest
abbrev pub SchemeOf : Bytes → Option View → Bytes → Type 0
SchemeOf inner none rest = (rest ≡ inner) × (has_scheme inner ≡ false)
SchemeOf inner (some v) rest =
    (inner ≡ v.text ++ (b':' ∷ rest))
    × ((v.text ≡ codes "sip") ⊎ ((v.text ≡ codes "sips") ⊎ (v.text ≡ codes "tel")))

-- rest = [user "@"] hostport
abbrev pub UserOf : Bytes → Option View → Bytes → Type 0
UserOf rest none hostport = (hostport ≡ rest) × (absent b'@' rest ≡ true)
UserOf rest (some v) hostport = (rest ≡ v.text ++ (b'@' ∷ hostport)) × (absent b'@' v.text ≡ true)

-- hostport = hp [tail]
abbrev pub TailOf : Bytes → Bytes → Option View → Type 0
TailOf hostport hp none = (hostport ≡ hp) × (plain_host hp ≡ true)
TailOf hostport hp (some v) =
    (hostport ≡ hp ++ v.text) × (begins ends_host v.text ≡ true) × (plain_host hp ≡ true)

-- hp = host [":" port]
abbrev pub HostOf : Bytes → Bytes → Option View → Type 0
HostOf hp host none = (hp ≡ host) × (absent b':' hp ≡ true)
HostOf hp host (some p) = (hp ≡ host ++ (b':' ∷ p.text)) × (absent b':' p.text ≡ true)

-- What is in front of '<' without blanks at its ends, and without the quotes around it.
abbrev pub Unquoted : Bytes → Bytes → Type 0
Unquoted d t = (d ≡ b'"' ∷ (t ++ (b'"' ∷ []))) ⊎ ((t ≡ d) × (quoted d ≡ false))

abbrev pub DisplayOf : Bytes → Option View → Type 0
DisplayOf before none = ⊥
DisplayOf before (some v) = Unquoted (trim before) v.text

-- Behind the address of an angled value there is nothing, or it begins with '>'.
abbrev pub Closed : Bytes → Type 0
Closed after = (after ≡ []) ⊎ (begins (λ x. x == b'>') after ≡ true)

-- value = [display] "<" inner ">" ..., or value = inner
abbrev pub InnerOf : Bytes → Bool → Option View → ℕ → Bytes → Type 0
InnerOf value false display start inner =
    (inner ≡ value) × (absent b'<' value ≡ true) × (display ≡ none) × (start ≡ 0)
InnerOf value true display start inner =
    (before : Bytes) × (after : Bytes) × (value ≡ before ++ (b'<' ∷ (inner ++ after)))
    × (absent b'<' before ≡ true)
    × (absent b'>' inner ≡ true)
    × Closed after
    × DisplayOf before display
    × (start ≡ suc (length before))
