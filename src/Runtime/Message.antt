-- ===== src/Runtime/Message.antt =====
-- The functions of the C ABI on a message: headers, request line and fields (src/runtime/runtime.cpp).
use olproff_fastsbc_hmr.Base.{ℕ, Bool, false, Option, none, some}
use olproff_fastsbc_hmr.Text.{Bytes}
use olproff_fastsbc_hmr.Arena.{HmrStr, null_str, HmrArena, sv, view}
use olproff_fastsbc_hmr.Sip
use olproff_fastsbc_hmr.Sip.{HmrSipMsg}
use olproff_fastsbc_hmr.Sip.Field
use olproff_fastsbc_hmr.Sip.Field.{HmrField}
use olproff_fastsbc_hmr.Runtime.{HmrContext}

-- Strings point into the packet `packet` and the arena `a`.
module _ (packet : Bytes) (a : HmrArena) where
  unfoldable pub get_header : Option HmrSipMsg → HmrStr → HmrStr
  unfolding Sip.get_header sv
  get_header none name = null_str
  get_header (some m) name = Sip.get_header m a (sv packet a name)

  unfoldable pub delete_header : Option HmrSipMsg → HmrStr → Bool × Option HmrSipMsg
  unfolding Sip.delete_header sv
  delete_header none name = (false, none)
  delete_header (some m) name =
      let (done, m') = Sip.delete_header m a (sv packet a name) in (done, some m')

  unfoldable pub get_field : Option HmrSipMsg → HmrField → HmrStr
  unfolding Field.get_field
  get_field none f = null_str
  get_field (some m) f = Field.get_field m a f

unfoldable pub get_method : Option HmrSipMsg → HmrStr
get_method none = null_str
get_method (some m) = m.method

unfoldable pub is_request : Option HmrSipMsg → Bool
is_request none = false
is_request (some m) = m.is_request

unfoldable pub status_code : Option HmrSipMsg → ℕ
status_code none = 0
status_code (some m) = m.status_code

-- What a call on a message and a context gives back: its result and both handles.
abbrev pub Handles : Type 0 → Type 0
Handles R = Bool × Option HmrSipMsg × Option (HmrContext R)

abbrev done : {R : Type 0} → HmrContext R → Bool × HmrSipMsg × HmrArena → Handles R
done c (r, m, a) = (r, some m, some (record c { arena = a }))

module _ {R : Type 0} where
  unfoldable pub set_header : Option HmrSipMsg → Option (HmrContext R) → HmrStr → HmrStr → Handles R
  unfolding Sip.set_header sv
  set_header (some m) (some c) name value =
      let a = c.arena in done c (Sip.set_header m (view m.packet a name) (view m.packet a value) a)
  set_header m c name value = (false, m, c)

  unfoldable pub add_header : Option HmrSipMsg → Option (HmrContext R) → HmrStr → HmrStr → Handles R
  unfolding Sip.add_header sv
  add_header (some m) (some c) name value =
      let a = c.arena in done c (Sip.add_header m (view m.packet a name) (view m.packet a value) a)
  add_header m c name value = (false, m, c)

  unfoldable pub set_field :
      Option HmrSipMsg → Option (HmrContext R) → HmrField → HmrStr → Handles R
  unfolding Field.set_field sv
  set_field (some m) (some c) f value =
      let a = c.arena in done c (Field.set_field m f (sv m.packet a value) a)
  set_field m c f value = (false, m, c)
