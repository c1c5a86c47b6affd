-- ===== src/Json/Examples.antt =====
-- src/main.cc and src/tools.h: the error event that do_script writes, and other runs of the writer.
use Prim.Native.Char.{code}
use Prim.Native.String.{String}
use threadjs_lib.Base.{ℕ, List, [], ◌∷◌, ◌≡◌, refl, some, none, arith}
use threadjs_lib.Json.{set, set_mult_line, childen, end, str, new_root}
use threadjs_lib.Json.Render.{Calls, done, text, lines, nested, write, render, write-render}
use threadjs_lib.Json.Reader.{read}
use threadjs_lib.Json.ReadBack.{described, read-write}
use threadjs_lib.Json.Unreadable.{here, behind_text, inside, read-HasControl}

abbrev codes : String → List ℕ
codes String.[] = []
codes (String.◌∷◌ c s) = code c ∷ codes s

-- { "name": "error", "data": { "name": "Error", "stack": "a\nb" } }
abbrev error_event : Calls
error_event = text (codes "name") (codes "error") (
    nested (codes "data")
      (text (codes "name") (codes "Error") (lines (codes "stack") (codes "a\nb") done)) done)

error_event_text :
    write error_event
    ≡ codes "{\"name\":\"error\",\"data\":{\"name\":\"Error\",\"stack\":\"a\\nb\"}}"
unfolding write new_root set set_mult_line childen end str
error_event_text = refl

write-render_example : write error_event ≡ render error_event
write-render_example = write-render error_event

read-write_example : read (write error_event) ≡ some (described error_event)
read-write_example = read-write error_event (omega arith)

-- The error event with a message of two lines that went to `set`.
abbrev two_lines : Calls
two_lines = text (codes "name") (codes "error") (
    nested (codes "data")
      (text (codes "name") (codes "Error") (text (codes "message") (codes "a\nb") done)) done)

read-HasControl_example : read (write two_lines) ≡ none
read-HasControl_example = read-HasControl (
    behind_text (omega arith) (omega arith) (
      inside (omega arith) (
        behind_text (omega arith) (omega arith)
          (here (codes "a") (codes "b") 10 (omega arith) (omega arith) (omega arith)))))
