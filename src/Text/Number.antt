-- ===== src/Text/Number.antt =====
-- std::to_string and the numbers of std::format: decimal digits.
use olproff_fastsbc_hmr.Base.{ℕ, zero, suc, ◌+◌, ◌/◌, ◌%◌, [], ◌∷◌, ◌++◌, ltb, if◌then◌else◌}
use olproff_fastsbc_hmr.Text.{Bytes}

-- std::to_string of an unsigned number, on fuel for the digits.
unfoldable pub digits : ℕ → ℕ → Bytes
digits zero n = []
digits (suc fuel) n =
    let front = digits fuel (n / 10) in
    let last = (b'0' + n % 10) ∷ [] in if ltb n 10 then last else front ++ last

unfoldable pub to_string : ℕ → Bytes
unfolding digits
to_string n = digits (suc n) n
