-- ===== src/Sip/Fuel.antt =====
-- The rounds of the loop of HmrSipMsg::parse (src/runtime/sip_message.cpp).
use olproff_fastsbc_hmr.Base.{
  ℕ, zero, suc, ◌+◌, ◌≤◌, Bool, true, false, ◌≡◌, refl, sym, inl, inr, arith, le→leb, length,
  Bool-cases, Option-cases,
}
use olproff_fastsbc_hmr.Text.{Bytes}
use olproff_fastsbc_hmr.Sip.{HmrSipMsg}
use olproff_fastsbc_hmr.Sip.Parse.{next_line, parse_line, parse_loop, new_message, parse}
use olproff_fastsbc_hmr.Sip.Valid.{next_line-Within}

parse_loop-done :
    (fuel : ℕ) (packet : Bytes) (pos : ℕ) (first : Bool) (m : HmrSipMsg)
    → length packet ≤ pos
    → parse_loop fuel packet pos first m ≡ m
unfolding parse_loop next_line
parse_loop-done zero packet pos first m h = refl
parse_loop-done (suc fuel) packet pos first m h = rw (le→leb (length packet) pos h, parse_loop) refl

parse_loop-fuel :
    (f g : ℕ) (packet : Bytes) (pos : ℕ) (first : Bool) (m : HmrSipMsg)
    → length packet ≤ pos + f
    → length packet ≤ pos + g
    → parse_loop f packet pos first m ≡ parse_loop g packet pos first m
unfolding parse_loop
parse_loop-fuel zero g packet pos first m hf hg =
    sym (parse_loop-done g packet pos first m (omega arith))
parse_loop-fuel (suc f) zero packet pos first m hf hg =
    parse_loop-done (suc f) packet pos first m (omega arith)
parse_loop-fuel (suc f) (suc g) packet pos first m hf hg =
    elim (Option-cases (next_line packet pos)) [
      | inl ended ↦ rw (ended, parse_loop) refl
      | inr ((line, pos'), more) ↦
          let further = (next_line-Within packet pos line pos' more).1 in
          rw (more, parse_loop)
            (elim (Bool-cases (parse_line packet pos' first line m).0) [
              | inl on ↦ rw on (parse_loop-fuel f g packet pos' false _ (omega arith) (omega arith))
              | inr stop ↦ rw stop refl
            ])
    ]

-- The loop of `parse` on any fuel from the size of the packet on gives the message that `parse`
-- gives.
pub parse-fuel :
    (packet : Bytes) (fuel : ℕ)
    → length packet ≤ fuel
    → parse_loop fuel packet 0 true (new_message packet) ≡ parse packet
unfolding parse
parse-fuel packet fuel h =
    parse_loop-fuel fuel (length packet) packet 0 true _ (omega arith) (omega arith)
