-- ===== src/Codegen/Spelling.antt =====
-- The spelling of one statement: esc, the names of the enumerators, str_lit and uint_lit, and the text
-- of each `line(...)` call of src/codegen/cpp_generator.cpp.
use Prim.Native.String.{String}
use olproff_fastsbc_hmr.Base.{
  ℕ, ◌+◌, ◌/◌, ◌%◌, true, false, ◌||◌, List, [], ◌∷◌, ◌++◌, ltb, leb, ◌==◌, if◌then◌else◌, length,
  map, get_or,
}
use olproff_fastsbc_hmr.Text.{Bytes, codes}
use olproff_fastsbc_hmr.Uri.{HmrUriElement}
use olproff_fastsbc_hmr.Runtime.{HmrMatchType}
use olproff_fastsbc_hmr.Lowering.{to_string}
use olproff_fastsbc_hmr.Codegen.{
  Expr, temp, str_lit, Stmt, bind, get_var, get_capture, load, val_reset, append_lit, append_var,
  append_capture, append_slot, val_finish, get_header, get_method, uri_get, uri_set, add_header,
  set_header, delete_header, store, log, reject, match_guard, type_guard, method_guard, return,
}

abbrev pub cat : List Bytes → Bytes
cat [] = []
cat (s ∷ ss) = s ++ cat ss

-- The last three bits of a number, as a digit.
abbrev pub octal : ℕ → ℕ
octal n = b'0' + n % 8

abbrev pub octal_escape : ℕ → Bytes
octal_escape c = b'\\' ∷ octal (c / 64) ∷ octal (c / 8) ∷ octal c ∷ []

-- The switch of esc on one byte.
unfoldable pub esc_byte : ℕ → Bytes
esc_byte c =
    if c == b'\\'
    then b'\\' ∷ b'\\' ∷ []
    else if c == b'"'
    then b'\\' ∷ b'"' ∷ []
    else if c == b'\n'
    then b'\\' ∷ b'n' ∷ []
    else if c == b'\r'
    then b'\\' ∷ b'r' ∷ []
    else if c == b'\t'
    then b'\\' ∷ b't' ∷ []
    else if ltb c 32 || leb 127 c
    then octal_escape c
    else c ∷ []

unfoldable pub esc : Bytes → Bytes
unfolding esc_byte
esc [] = []
esc (c ∷ s) = esc_byte c ++ esc s

-- Of a variable that has an enumerator, its name; else its number.
unfoldable pub var_enum : ℕ → Bytes
unfolding to_string
var_enum v =
    get_or
      (map codes (
        "HMR_VAR_NONE" ∷ "HMR_VAR_LOCAL_IP" ∷ "HMR_VAR_REMOTE_IP" ∷ "HMR_VAR_LOCAL_PORT"
        ∷ "HMR_VAR_REMOTE_PORT" ∷ "HMR_VAR_TRUNK_GROUP" ∷ "HMR_VAR_REALM" ∷ "HMR_VAR_INTERFACE"
        ∷ "HMR_VAR_METHOD" ∷ "HMR_VAR_RURI_USER" ∷ "HMR_VAR_RURI_HOST" ∷ "HMR_VAR_TO_USER"
        ∷ "HMR_VAR_TO_HOST" ∷ "HMR_VAR_FROM_USER" ∷ "HMR_VAR_FROM_HOST" ∷ []))
      v (to_string v ++ codes "u")

-- `other` is any code without a name: the statements hold none, so that its number is left out.
unfoldable pub match_enum : HmrMatchType → Bytes
match_enum HmrMatchType.exact = codes "HMR_MATCH_EXACT"
match_enum HmrMatchType.exact_ci = codes "HMR_MATCH_EXACT_CI"
match_enum HmrMatchType.regex = codes "HMR_MATCH_REGEX"
match_enum HmrMatchType.ip = codes "HMR_MATCH_IP"
match_enum HmrMatchType.ip_mask = codes "HMR_MATCH_IP_MASK"
match_enum HmrMatchType.ip_range = codes "HMR_MATCH_IP_RANGE"
match_enum HmrMatchType.fqdn = codes "HMR_MATCH_FQDN"
match_enum HmrMatchType.other = codes "u"

unfoldable pub uri_enum : HmrUriElement → Bytes
uri_enum HmrUriElement.whole = codes "HMR_URI_WHOLE"
uri_enum HmrUriElement.display = codes "HMR_URI_DISPLAY"
uri_enum HmrUriElement.user = codes "HMR_URI_USER"
uri_enum HmrUriElement.host = codes "HMR_URI_HOST"
uri_enum HmrUriElement.port = codes "HMR_URI_PORT"
uri_enum HmrUriElement.other = codes "u"

unfoldable pub uint_lit : ℕ → Bytes
unfolding to_string
uint_lit n = to_string n ++ codes "u"

-- str_lit
unfoldable pub quote : Bytes → Bytes
unfolding esc uint_lit
quote s = cat (codes "HmrStr{\"" ∷ esc s ∷ codes "\", " ∷ uint_lit (length s) ∷ codes "}" ∷ [])

-- The name that next_temp gives.
unfoldable pub temp_name : ℕ → Bytes
unfolding to_string
temp_name n = b't' ∷ to_string n

unfoldable pub expr_text : Expr → Bytes
unfolding temp_name quote
expr_text (temp n) = temp_name n
expr_text (str_lit s) = quote s

-- A call of the C ABI: its name, up to the bracket, and its operands.
abbrev operands : List Bytes → Bytes
operands [] = []
operands (o ∷ []) = o
operands (o ∷ os) = o ++ (codes ", " ++ operands os)

abbrev call : String → List Bytes → Bytes
call name os = codes name ++ (b'(' ∷ operands os) ++ codes ")"

abbrev declare : ℕ → Bytes → Bytes
declare t e = cat (codes "const HmrStr " ∷ temp_name t ∷ codes " = " ∷ e ∷ codes ";" ∷ [])

abbrev method_test : Bytes → Bytes → Bytes
method_test t m = call "hmr_rt_str_eq" (t ∷ quote m ∷ codes "1" ∷ []) ++ codes " != 0"

-- The condition on the listed methods, joined by `||`.
unfoldable pub any_of : Bytes → List Bytes → Bytes
unfolding quote
any_of t [] = []
any_of t (m ∷ []) = method_test t m
any_of t (m ∷ ms) = method_test t m ++ (codes " || " ++ any_of t ms)

abbrev ctx : Bytes
ctx = codes "ctx"

abbrev msg : Bytes
msg = codes "msg"

-- The line of a statement.
unfoldable pub stmt_text : Stmt → Bytes
unfolding temp_name quote expr_text uint_lit var_enum match_enum uri_enum any_of
stmt_text (bind t s) = declare t (quote s)
stmt_text (get_var t v) = declare t (call "hmr_rt_get_var" (ctx ∷ var_enum v ∷ []))
stmt_text (get_capture t n) = declare t (call "hmr_rt_get_capture" (ctx ∷ uint_lit n ∷ []))
stmt_text (load t n) = declare t (call "hmr_rt_load" (ctx ∷ uint_lit n ∷ []))
stmt_text val_reset = call "hmr_rt_val_reset" (ctx ∷ []) ++ codes ";"
stmt_text (append_lit s) = call "hmr_rt_val_append_lit" (ctx ∷ quote s ∷ []) ++ codes ";"
stmt_text (append_var v) = call "hmr_rt_val_append_var" (ctx ∷ var_enum v ∷ []) ++ codes ";"
stmt_text (append_capture n) = call "hmr_rt_val_append_capture" (ctx ∷ uint_lit n ∷ []) ++ codes ";"
stmt_text (append_slot n) = call "hmr_rt_val_append_slot" (ctx ∷ uint_lit n ∷ []) ++ codes ";"
stmt_text (val_finish t) = declare t (call "hmr_rt_val_finish" (ctx ∷ []))
stmt_text (get_header t name) = declare t (call "hmr_rt_get_header" (msg ∷ expr_text name ∷ []))
stmt_text (get_method t) = declare t (call "hmr_rt_get_method" (msg ∷ []))
stmt_text (uri_get t hv e) =
    declare t (call "hmr_rt_uri_get" (ctx ∷ expr_text hv ∷ uri_enum e ∷ []))
stmt_text (uri_set t hv e v) =
    declare t (call "hmr_rt_uri_set" (ctx ∷ expr_text hv ∷ uri_enum e ∷ expr_text v ∷ []))
stmt_text (add_header name v) =
    call "hmr_rt_add_header" (msg ∷ ctx ∷ expr_text name ∷ expr_text v ∷ []) ++ codes ";"
stmt_text (set_header name v) =
    call "hmr_rt_set_header" (msg ∷ ctx ∷ expr_text name ∷ expr_text v ∷ []) ++ codes ";"
stmt_text (delete_header name) =
    call "hmr_rt_delete_header" (msg ∷ expr_text name ∷ []) ++ codes ";"
stmt_text (store slot v) = call "hmr_rt_store" (ctx ∷ uint_lit slot ∷ expr_text v ∷ []) ++ codes ";"
stmt_text (log v) = call "hmr_rt_log" (ctx ∷ expr_text v ∷ []) ++ codes ";"
stmt_text (reject v) = call "hmr_rt_reject" (ctx ∷ codes "403u" ∷ expr_text v ∷ []) ++ codes ";"
stmt_text (match_guard t subject pattern regex_id negated) =
    let ops = ctx ∷ match_enum t ∷ expr_text subject ∷ quote pattern ∷ uint_lit regex_id ∷ [] in
    let test = if negated then codes " != 0" else codes " == 0" in
    cat (codes "if (" ∷ call "hmr_rt_match" ops ∷ test ∷ codes ") return false;" ∷ [])
stmt_text (type_guard true) = codes "if (hmr_rt_is_request(msg) == 0) return false;"
stmt_text (type_guard false) = codes "if (hmr_rt_is_request(msg) != 0) return false;"
stmt_text (method_guard t methods) =
    cat (codes "if (!(" ∷ any_of (temp_name t) methods ∷ codes ")) return false;" ∷ [])
stmt_text (return true) = codes "return true;"
stmt_text (return false) = codes "return false;"
