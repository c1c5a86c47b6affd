-- ===== src/Script/Compile.antt =====
-- src/main.cc, compilerCode: what goes to the compiler of v8, and what comes of its error.
use threadjs_lib.Base.{ℕ, ℤ, pos, Bool, true, false, List, Option, none, some, ◌>>=◌}
use threadjs_lib.Events.{World}
use threadjs_lib.Errors.{ErrorTexts, codes, v8_err_event, send_str}
use threadjs_lib.Script.{find_code_offset}

-- ScriptCompiler::Source with its ScriptOrigin.
pub record Source : Type 0 where
  pub filename : List ℕ
  pub offset : ℤ
  pub code : List ℕ

-- What goes to it.
abbrev pub source_of : List ℕ → List ℕ → Source
source_of filename code = record {
  filename = filename;
  offset = find_code_offset code (pos 0);
  code = code;
}

-- The compiler is a parameter: the SyntaxError that it throws, if it does, which has
-- all texts. The result is whether
-- compilerCode throws 2, and the endpoints.
module _ (compile : Source → Option ErrorTexts) where
  unfoldable pub compiler_code : ℕ → List ℕ → List ℕ → World → Option (Bool × World)
  unfolding send_str
  compiler_code main_event filename code w = elim (compile (source_of filename code)) [
    | none ↦ some (false, w)
    | some c ↦
        send_str main_event (v8_err_event (codes "CompilerError") c) w >>= λ w'. some (true, w')
  ]
