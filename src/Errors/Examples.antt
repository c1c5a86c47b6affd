-- ===== src/Errors/Examples.antt =====
-- Error events of tools.h and main.cc.
use threadjs_lib.Base.{◌≡◌, refl, [], ◌∷◌, ◌++◌, some, none, arith}
use threadjs_lib.Json.Reader.{read}
use threadjs_lib.Errors.{Caught, ErrorTexts, codes, v8_err_event, start_err_event}
use threadjs_lib.Errors.ReadBack.{are_plain, are_plain-IsPlain}
use threadjs_lib.Events.{World}
use threadjs_lib.Errors.{save_call}
use threadjs_lib.Errors.Sent.{all_there, Sends, save_call-read}
use threadjs_lib.Errors.Quotes.{read-v8_err_event_quote}
use threadjs_lib.Base.{decimal_digit}

abbrev thrown : ErrorTexts
thrown = record {
  exception = codes "no";
  stack = b'a' ∷ b'\n' ∷ [];
  source_line = codes "x(1)";
  line_number = 12;
  start_column = 0;
}

start_err_event_text :
    start_err_event 2
    ≡ codes
        "{\"name\":\"error\",\"data\":{\"name\":\"Error\",\"code\":\"2\",\"message\":\"Error: cannot create thread, compiler js code fail.\"}}"
unfolding start_err_event
start_err_event_text = rw (start_err_event, decimal_digit 2 (omega arith)) refl

read-v8_err_event_quote_example :
    read (
      v8_err_event
        (codes "Uncaught")
        (record thrown { source_line = codes "x(" ++ b'"' ∷ b'a' ∷ codes "\")" }))
    ≡ none
unfolding are_plain
read-v8_err_event_quote_example =
    read-v8_err_event_quote (codes "Uncaught") (codes "no") (b'a' ∷ b'\n' ∷ []) (codes "x(")
      (codes "\")") b'a' 12 0 (are_plain-IsPlain (codes "Uncaught") refl)
      (are_plain-IsPlain (codes "no") refl) (ground arith, (ground arith, tt))
      (are_plain-IsPlain (codes "x(") refl) refl

abbrev no_world : World
no_world = record { objects = record { pool = []; object_id = 0 }; handle_data = λ k. 0; sent = [] }

abbrev thrown_error : Caught
thrown_error = record {
  exception = some thrown.exception;
  stack = some thrown.stack;
  message = some (record {
    source_line = some thrown.source_line;
    line_number = thrown.line_number;
    start_column = thrown.start_column;
  });
}

save_call-read_example :
    Sends 1 no_world (some thrown) (save_call (some 1) (some thrown_error) no_world)
    × (save_call (some 1) none no_world ≡ some no_world)
    × (save_call none (some thrown_error) no_world ≡ some no_world)
unfolding are_plain
save_call-read_example =
    save_call-read 1 thrown_error (some thrown) no_world
      (all_there thrown.exception thrown.stack thrown.source_line 12 0)
      (
        are_plain-IsPlain (codes "no") refl,
        (ground arith, (ground arith, tt)),
        are_plain-IsPlain (codes "x(1)") refl,
      )
