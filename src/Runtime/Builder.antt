-- ===== src/Runtime/Builder.antt =====
-- Variables, slots, the value builder, URI elements, logs and rejection: the rest of the C ABI
-- (src/runtime/runtime.cpp).
use olproff_fastsbc_hmr.Base.{
  ℕ, true, ◌||◌, ◌&&◌, Option, none, some, [], ◌∷◌, ◌++◌, ltb, leb, ◌==◌, if◌then◌else◌, length,
  get_or, set,
}
use olproff_fastsbc_hmr.Text.{Bytes, View}
use olproff_fastsbc_hmr.Arena.{HmrStr, null_str, sv, to_str}
use olproff_fastsbc_hmr.Uri.{
  HmrUriElement, whole, display, user, host, port, other, parse_uri, rebuild_uri,
}
use olproff_fastsbc_hmr.Sip.Field.{slice_in}
use olproff_fastsbc_hmr.Runtime.{HmrContext, var_max}
use olproff_fastsbc_hmr.Runtime.Matching.{get_capture}

module _ {R : Type 0} where
  unfoldable pub get_var : Option (HmrContext R) → ℕ → HmrStr
  get_var none var_id = null_str
  get_var (some c) var_id =
      if var_id == 0 || leb var_max var_id then null_str else to_str (get_or c.vars var_id [])

  unfoldable pub load : Option (HmrContext R) → ℕ → HmrStr
  load none slot = null_str
  load (some c) slot =
      if leb (length c.slots) slot then null_str else to_str (get_or c.slots slot [])

  unfoldable pub val_reset : Option (HmrContext R) → Option (HmrContext R)
  val_reset none = none
  val_reset (some c) = some (record c { scratch = [] })

  unfoldable pub val_append_var : Option (HmrContext R) → ℕ → Option (HmrContext R)
  val_append_var none var_id = none
  val_append_var (some c) var_id = some (
      if ltb 0 var_id && ltb var_id var_max
      then record c { scratch = c.scratch ++ get_or c.vars var_id [] }
      else c)

  unfoldable pub val_append_slot : Option (HmrContext R) → ℕ → Option (HmrContext R)
  val_append_slot none slot = none
  val_append_slot (some c) slot = some (
      if ltb slot (length c.slots)
      then record c { scratch = c.scratch ++ get_or c.slots slot [] }
      else c)

  unfoldable pub val_finish : Option (HmrContext R) → HmrStr
  val_finish none = null_str
  val_finish (some c) = to_str c.scratch

abbrev part_in : HmrStr → Option View → HmrStr
part_in s none = null_str
part_in s (some v) = slice_in s v

-- Strings point into the packet and the context's arena.
module _ {R : Type 0} (packet : Bytes) where
  -- hmr_rt_store
  unfoldable pub store : Option (HmrContext R) → ℕ → HmrStr → Option (HmrContext R)
  unfolding sv
  store none slot value = none
  store (some c) slot value = some (
      if leb (length c.slots) slot
      then c
      else record c { slots = set c.slots slot (sv packet c.arena value) })

  unfoldable pub val_append_lit : Option (HmrContext R) → HmrStr → Option (HmrContext R)
  unfolding sv
  val_append_lit none literal = none
  val_append_lit (some c) literal =
      some (record c { scratch = c.scratch ++ sv packet c.arena literal })

  unfoldable pub val_append_capture : Option (HmrContext R) → ℕ → Option (HmrContext R)
  unfolding get_capture sv
  val_append_capture none index = none
  val_append_capture (some c) index =
      some (record c { scratch = c.scratch ++ sv packet c.arena (get_capture (some c) index) })

  unfoldable pub uri_get : Option (HmrContext R) → HmrStr → HmrUriElement → HmrStr
  unfolding parse_uri sv
  uri_get none header_value e = null_str
  uri_get (some c) header_value e =
      let u = parse_uri (sv packet c.arena header_value) in
      elim e [
        | whole ↦ header_value
        | display ↦ part_in header_value u.display
        | user ↦ part_in header_value u.user
        | host ↦ slice_in header_value u.host
        | port ↦ part_in header_value u.port
        | other ↦ null_str
      ]

  unfoldable pub uri_set :
      Option (HmrContext R) → HmrStr → HmrUriElement → HmrStr → HmrStr × Option (HmrContext R)
  unfolding rebuild_uri sv
  uri_set none header_value e new_value = (null_str, none)
  uri_set (some c) header_value e new_value =
      let old = sv packet c.arena header_value in
      let (s, a) = rebuild_uri c.arena old e (sv packet c.arena new_value) in
      (s, some (record c { arena = a }))

  -- hmr_rt_log
  unfoldable pub log : Option (HmrContext R) → HmrStr → Option (HmrContext R)
  unfolding sv
  log none message = none
  log (some c) message = some (record c { logs = c.logs ++ sv packet c.arena message ∷ [] })

  unfoldable pub reject : Option (HmrContext R) → ℕ → HmrStr → Option (HmrContext R)
  unfolding sv
  reject none status_code reason = none
  reject (some c) status_code reason = some (record c {
    rejected = true;
    reject_code = status_code;
    reject_reason = sv packet c.arena reason;
  })
