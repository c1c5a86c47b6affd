-- ===== src/Errors/ReadBack.antt =====
-- src/tools.h, SEND_V8_ERR_EVENT, and the catch of do_script in src/main.cc: what a JSON reader makes
-- of an error event.
use threadjs_lib.Base.{
  ℕ, ◌==◌, ◌≡◌, refl, Bool, true, false, List, [], ◌∷◌, some, arith, All, All-map, decimal,
  decimal-IsDigit, All-append, ltb, if◌then◌else◌,
}
use threadjs_lib.Json.Reader.{
  Fields, no_fields, read, read_members, read_body, expect, expect_sep, read_key, read_value,
}
use threadjs_lib.Json.Reader
use threadjs_lib.Json.Render.{Calls, done, text, lines, nested, run_calls, write}
use threadjs_lib.Json.ReadBack.{IsPlain, IsLine, IsClean, read-write}
use threadjs_lib.Errors.{ErrorTexts, codes, v8_err_event, start_message, start_err_event}

-- The calls of Json that each of the two makes.
abbrev pub v8_calls : List ℕ → ErrorTexts → Calls
v8_calls error_type c = text (codes "name") (codes "error") (
    nested (codes "data")
      (text (codes "name") error_type (
        text (codes "message") c.exception (
          lines (codes "stack") c.stack (
            text (codes "linenum") (decimal c.line_number) (
              text (codes "columnnum") (decimal c.start_column)
                (text (codes "jscode") c.source_line done))))))
      done)

abbrev pub start_calls : ℕ → Calls
start_calls step = text (codes "name") (codes "error") (
    nested (codes "data")
      (text (codes "name") (codes "Error")
        (text (codes "code") (decimal step) (text (codes "message") (start_message step) done)))
      done)

pub v8_err_event-write :
    (error_type : List ℕ) (c : ErrorTexts)
    → v8_err_event error_type c ≡ write (v8_calls error_type c)
unfolding v8_err_event write run_calls
v8_err_event-write error_type c = refl

start_err_event-write : (step : ℕ) → start_err_event step ≡ write (start_calls step)
unfolding start_err_event write run_calls
start_err_event-write step = refl

-- Digits and the constants need no escape.
pub decimal-IsPlain : (n : ℕ) → All IsPlain (decimal n)
decimal-IsPlain n =
    All-map (λ c (low, high). (omega arith, (λ e. omega (arith, e)), λ e. omega (arith, e)))
      (decimal n) (decimal-IsDigit n)

unfoldable pub are_plain : List ℕ → Bool
are_plain [] = true
are_plain (c ∷ s) =
    let more = are_plain s in
    if ltb c 32 then false else if c == b'"' then false else if c == b'\\' then false else more

pub are_plain-IsPlain : (s : List ℕ) → are_plain s ≡ true → All IsPlain s
unfolding are_plain
are_plain-IsPlain [] e = tt
are_plain-IsPlain (c ∷ s) e = ground (arith, are_plain-IsPlain s)

start_message-IsPlain : (step : ℕ) → All IsPlain (start_message step)
unfolding start_message are_plain
start_message-IsPlain step =
    All-append IsPlain (codes "Error: cannot create thread") _
      (are_plain-IsPlain (codes "Error: cannot create thread") refl)
      (why (step == 1) (step == 2) (step == 10))
  where
    why :
        (b c d : Bool)
        → All IsPlain (
            if b
            then codes ", v8 Fatal error in heap setup"
            else if c
            then codes ", compiler js code fail."
            else if d
            then codes ", LoadEnvironment() fail."
            else [])
    why true c d = are_plain-IsPlain (codes ", v8 Fatal error in heap setup") refl
    why false true d = are_plain-IsPlain (codes ", compiler js code fail.") refl
    why false false true = are_plain-IsPlain (codes ", LoadEnvironment() fail.") refl
    why false false false = tt

-- Whatever the step at which the start of a thread failed, the text that the catch of do_script
-- sends reads back as the error event with that step and its message.
pub read-start_err_event :
    (step : ℕ)
    → read (start_err_event step)
      ≡ some (
          Reader.text (codes "name") (codes "error") (
            Reader.nested
              (codes "data")
              (Reader.text (codes "name") (codes "Error") (
                Reader.text
                  (codes "code")
                  (decimal step)
                  (Reader.text (codes "message") (start_message step) no_fields)))
              no_fields))
unfolding are_plain
read-start_err_event step = rw (start_err_event-write step) (
    read-write (start_calls step) (
      are_plain-IsPlain (codes "name") refl,
      are_plain-IsPlain (codes "error") refl,
      (
        are_plain-IsPlain (codes "data") refl,
        (
          are_plain-IsPlain (codes "name") refl,
          are_plain-IsPlain (codes "Error") refl,
          (
            are_plain-IsPlain (codes "code") refl,
            decimal-IsPlain step,
            (are_plain-IsPlain (codes "message") refl, start_message-IsPlain step, tt),
          ),
        ),
        tt,
      ),
    ))

-- What a script's error says, when it says it without a byte that Json::set would have to escape.
abbrev pub IsCleanError : ErrorTexts → Type 0
IsCleanError c = All IsPlain c.exception × All IsLine c.stack × All IsPlain c.source_line

-- The error event of a script's error.
abbrev pub v8_fields : List ℕ → ErrorTexts → Fields
v8_fields error_type c = Reader.text (codes "name") (codes "error") (
    Reader.nested (codes "data")
      (Reader.text (codes "name") error_type (
        Reader.text (codes "message") c.exception (
          Reader.text (codes "stack") c.stack (
            Reader.text (codes "linenum") (decimal c.line_number) (
              Reader.text (codes "columnnum") (decimal c.start_column)
                (Reader.text (codes "jscode") c.source_line no_fields))))))
      no_fields)

pub v8_calls-IsClean :
    (error_type : List ℕ) (c : ErrorTexts)
    → All IsPlain error_type
    → IsCleanError c
    → IsClean (v8_calls error_type c)
unfolding are_plain
v8_calls-IsClean error_type c h (he, hs, hl) = (
  are_plain-IsPlain (codes "name") refl,
  are_plain-IsPlain (codes "error") refl,
  (
    are_plain-IsPlain (codes "data") refl,
    (
      are_plain-IsPlain (codes "name") refl,
      h,
      (
        are_plain-IsPlain (codes "message") refl,
        he,
        (
          are_plain-IsPlain (codes "stack") refl,
          hs,
          (
            are_plain-IsPlain (codes "linenum") refl,
            decimal-IsPlain c.line_number,
            (
              are_plain-IsPlain (codes "columnnum") refl,
              decimal-IsPlain c.start_column,
              (are_plain-IsPlain (codes "jscode") refl, hl, tt),
            ),
          ),
        ),
      ),
    ),
    tt,
  ),
)

-- The text that SEND_V8_ERR_EVENT makes of an error whose type, exception and source line need no
-- escape, and whose stack has no control byte but line ends, reads back as the error event.
pub read-v8_err_event :
    (error_type : List ℕ) (c : ErrorTexts)
    → All IsPlain error_type
    → IsCleanError c
    → read (v8_err_event error_type c) ≡ some (v8_fields error_type c)
read-v8_err_event error_type c h clean =
    rw (v8_err_event-write error_type c)
      (read-write (v8_calls error_type c) (v8_calls-IsClean error_type c h clean))
