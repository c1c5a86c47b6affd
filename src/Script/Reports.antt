-- ===== src/Script/Reports.antt =====
-- src/main.cc, compilerCode: the offset that the compiler gets, and the message that its error becomes.
use threadjs_lib.Base.{
  ℕ, negsuc, ◌≡◌, refl, ◌∙◌, ap, Bool, true, false, List, ◌++◌, Option, none, some, ◌>>=◌,
}
use threadjs_lib.Events.{EventData, World, send_event, get_data}
use threadjs_lib.Json.Reader.{read}
use threadjs_lib.Errors.{ErrorTexts, codes}
use threadjs_lib.Errors.ReadBack.{IsCleanError, v8_fields, are_plain, are_plain-IsPlain}
use threadjs_lib.Errors.Sent.{send_str-v8_err_event}
use threadjs_lib.Script.{marker}
use threadjs_lib.Script.Offset.{line_ends, NotBefore, find_code_offset-marked}
use threadjs_lib.Script.Compile.{Source, source_of, compiler_code}

abbrev pub IsCleanOutcome : Option ErrorTexts → Type 0
IsCleanOutcome none = Unit {0}
IsCleanOutcome (some c) = IsCleanError c

-- What compilerCode makes of what the compiler throws.
abbrev pub Reported : ℕ → World → Option ErrorTexts → Option (Bool × World) → Type 0
Reported main_event w none result = result ≡ some (false, w)
Reported main_event w (some c) result =
    (e : EventData) × (result ≡ some (true, send_event main_event e w))
    × ((get_data e >>= read) ≡ some (v8_fields (codes "CompilerError") c))

compiler_code-Reported :
    (compile : Source → Option ErrorTexts) (main_event : ℕ) (filename code : List ℕ) (w : World)
    (o : Option ErrorTexts)
    → compile (source_of filename code) ≡ o
    → IsCleanOutcome o
    → Reported main_event w o (compiler_code compile main_event filename code w)
unfolding compiler_code are_plain
compiler_code-Reported compile main_event filename code w none compiled clean =
    rw (compiler_code, compiled) refl
compiler_code-Reported compile main_event filename code w (some c) compiled clean =
    let (e, sent, reads) =
      send_str-v8_err_event main_event (codes "CompilerError") c w
        (are_plain-IsPlain (codes "CompilerError") refl) clean in
    (e, rw (compiler_code, compiled) (rw sent refl), reads)

-- A script with a marker is compiled as its whole text with the offset -(1 + the line ends in front
-- of the first marker). If the compiler takes it, nothing is sent and nothing thrown; an error of
-- it that needs no escape becomes one message to main_event, whose text reads back as the error
-- event of a CompilerError, and is thrown on.
pub compiler_code-marked :
    (compile : Source → Option ErrorTexts) (main_event : ℕ) (filename before rest : List ℕ)
    (w : World) (o : Option ErrorTexts)
    → NotBefore marker before (marker ++ rest)
    → compile (record {
      filename = filename;
      offset = negsuc (line_ends before);
      code = before ++ (marker ++ rest);
    })
      ≡ o
    → IsCleanOutcome o
    → Reported main_event w o
        (compiler_code compile main_event filename (before ++ (marker ++ rest)) w)
compiler_code-marked compile main_event filename before rest w o h compiled clean =
    compiler_code-Reported compile main_event filename (before ++ (marker ++ rest)) w o
      (ap
          (λ z.
            compile (record { filename = filename; offset = z; code = before ++ (marker ++ rest) }))
          (find_code_offset-marked before rest h)
        ∙ compiled)
      clean
