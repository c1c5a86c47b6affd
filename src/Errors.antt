-- ===== src/Errors.antt =====
-- src/tools.h, SEND_V8_ERR_EVENT, CALL_JS_OBJ_FN_RET_BOOL and SaveCallFunction, with src/tools.cc and
-- the catch of do_script in src/main.cc: how an error of a thread becomes a message to its maker.
pub mod Texts
pub mod ReadBack
pub mod Sent
pub mod Quotes
mod Examples
use Prim.Native.Char.{code}
use Prim.Native.String.{String}
use threadjs_lib.Base.{
  ℕ, ◌==◌, Bool, true, false, List, [], ◌∷◌, ◌++◌, Option, none, some, if◌then◌else◌, ◌>>=◌,
  decimal,
}
use threadjs_lib.Json.{Writing, new_root, set, set_mult_line, childen, end, str}
use threadjs_lib.Events.{EventData, World, of_chars, send_event}

-- The bytes of a literal.
abbrev pub codes : String → List ℕ
codes String.[] = []
codes (String.◌∷◌ c s) = code c ∷ codes s

-- What a TryCatch that has caught something says, as UTF-8 texts. A Utf8Value ends in a NUL, which
-- the texts are read up to.
pub record ErrorTexts : Type 0 where
  pub exception : List ℕ
  pub stack : List ℕ
  pub source_line : List ℕ
  pub line_number : ℕ
  pub start_column : ℕ

-- Message of v8.
pub record Message : Type 0 where
  pub source_line : Option (List ℕ)
  pub line_number : ℕ
  pub start_column : ℕ

-- The TryCatch: there is no stack where the exception is not an Error, no message where the script
-- was terminated, and no text of an exception whose conversion to one throws.
pub record Caught : Type 0 where
  pub exception : Option (List ℕ)
  pub stack : Option (List ℕ)
  pub message : Option Message

-- What SEND_V8_ERR_EVENT reads of it; `none` is a read through a null pointer.
unfoldable pub error_texts : Caught → Option ErrorTexts
error_texts c = c.message >>= λ m. c.exception >>= λ exception. m.source_line >>= λ line.
    c.stack >>= λ stack. some (record {
      exception = exception;
      stack = stack;
      source_line = line;
      line_number = m.line_number;
      start_column = m.start_column;
    })

-- The text that SEND_V8_ERR_EVENT builds.
unfoldable pub v8_err_event : List ℕ → ErrorTexts → List ℕ
unfolding new_root set set_mult_line childen end str
v8_err_event error_type c =
    let jroot = set (codes "name") (codes "error") new_root in
    let (parent, child, buf) = childen (codes "data") jroot in
    let d₁ = set (codes "name") error_type (child, buf) in
    let d₂ = set (codes "message") c.exception d₁ in
    let d₃ = set_mult_line (codes "stack") c.stack d₂ in
    let d₄ = set (codes "linenum") (decimal c.line_number) d₃ in
    let d₅ = set (codes "columnnum") (decimal c.start_column) d₄ in
    let d₆ = set (codes "jscode") c.source_line d₅ in
    let (_, out) = end d₆ in str (end (parent, out))

-- The switch of the catch, and the text that the catch builds.
unfoldable pub start_message : ℕ → List ℕ
start_message step =
    codes "Error: cannot create thread"
    ++ (if step == 1
        then codes ", v8 Fatal error in heap setup"
        else if step == 2
        then codes ", compiler js code fail."
        else if step == 10
        then codes ", LoadEnvironment() fail."
        else [])

unfoldable pub start_err_event : ℕ → List ℕ
unfolding new_root set childen end str start_message
start_err_event step =
    let root = set (codes "name") (codes "error") new_root in
    let (parent, child, buf) = childen (codes "data") root in
    let d₁ = set (codes "name") (codes "Error") (child, buf) in
    let d₂ = set (codes "code") (decimal step) d₁ in
    let d₃ = set (codes "message") (start_message step) d₂ in
    let (_, out) = end d₃ in str (end (parent, out))

-- sendEvent of a Json or a std::string, by way of its c_str().
unfoldable pub str_event : List ℕ → Option EventData
unfolding of_chars
str_event s = of_chars (s ++ 0 ∷ [])

unfoldable pub send_str : ℕ → List ℕ → World → Option World
unfolding str_event send_event
send_str async s w = str_event s >>= λ e. some (send_event async e w)

unfoldable pub cache_v8_err_send_event : ℕ → Option Caught → List ℕ → World → Option World
unfolding send_str v8_err_event error_texts
cache_v8_err_send_event target none error_type w = some w
cache_v8_err_send_event target (some c) error_type w =
    error_texts c >>= λ t. send_str target (v8_err_event error_type t) w

-- SaveCallFunction::call behind the call of the function, which ended in `caught`. With no target
-- an error is only printed.
unfoldable pub save_call : Option ℕ → Option Caught → World → Option World
unfolding cache_v8_err_send_event
save_call none caught w = some w
save_call (some target) caught w = cache_v8_err_send_event target caught (codes "Uncaught") w

-- CALL_JS_OBJ_FN_RET_BOOL: a call that threw counts as false.
unfoldable pub call_ret_bool : Option Caught → Bool → Bool
call_ret_bool (some c) b = false
call_ret_bool none b = b
