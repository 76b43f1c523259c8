-- ===== src/Sip/Spec.antt =====
-- What the header operations promise, on the list of the live headers as (name, value) pairs of bytes.
use olproff_fastsbc_hmr.Base.{Bool, true, false, Option, none, some, List, [], ◌∷◌, if◌then◌else◌}
use olproff_fastsbc_hmr.Text.{Bytes, iequals}

abbrev pub Headers : Type 0
Headers = List (Bytes × Bytes)

-- The value of the first header of that name.
unfoldable pub first_value : Bytes → Headers → Option Bytes
first_value k [] = none
first_value k ((n, v) ∷ hs) = if iequals n k then some v else first_value k hs

-- The first header of that name gets the value, or a header is added at the end.
unfoldable pub set_first : Bytes → Bytes → Headers → Headers
set_first k v [] = (k, v) ∷ []
set_first k v ((n, w) ∷ hs) = if iequals n k then (n, v) ∷ hs else (n, w) ∷ set_first k v hs

unfoldable pub remove : Bytes → Headers → Headers
remove k [] = []
remove k ((n, v) ∷ hs) = if iequals n k then remove k hs else (n, v) ∷ remove k hs

unfoldable pub has : Bytes → Headers → Bool
has k [] = false
has k ((n, v) ∷ hs) = if iequals n k then true else has k hs
