-- ===== src/Script/Examples.antt =====
-- src/main.cc, compilerCode with two lines in front of the marker, and j_eval of a text that throws.
use threadjs_lib.Base.{ℕ, true, pos, refl, List, [], ◌∷◌, ◌++◌, Option, some}
use threadjs_lib.Events.{World}
use threadjs_lib.Errors.{ErrorTexts, codes}
use threadjs_lib.Errors.ReadBack.{are_plain, are_plain-IsPlain}
use threadjs_lib.Script.{marker, starts_with}
use threadjs_lib.Script.Eval.{
  Attempt, returned, threw, rethrown, EvalArg, EvalSource, j_eval, text, number,
}
use threadjs_lib.Script.Replies.{Evaluates, j_eval-Evaluates}
use threadjs_lib.Script.Compile.{Source, compiler_code}
use threadjs_lib.Script.Reports.{Reported, compiler_code-marked}

abbrev preamble : List ℕ
preamble = b'a' ∷ b'\n' ∷ b'U' ∷ b'\n' ∷ []

abbrev syntax_error : ErrorTexts
syntax_error = record {
  exception = codes "SyntaxError";
  stack = [];
  source_line = codes "a b";
  line_number = 0;
  start_column = 2;
}

-- A compiler that takes no script.
abbrev compile_none : Source → Option ErrorTexts
compile_none s = some syntax_error

abbrev no_world : World
no_world = record { objects = record { pool = []; object_id = 0 }; handle_data = λ k. 0; sent = [] }

compiler_code-marked_example :
    Reported 1 no_world
      (some syntax_error)
      (compiler_code compile_none 1 (codes "f.js") (preamble ++ (marker ++ b'\n' ∷ [])) no_world)
unfolding starts_with are_plain
compiler_code-marked_example =
    compiler_code-marked compile_none 1 (codes "f.js") preamble (b'\n' ∷ []) no_world
      (some syntax_error) (refl, (refl, (refl, (refl, tt)))) refl
      (are_plain-IsPlain (codes "SyntaxError") refl, tt, are_plain-IsPlain (codes "a b") refl)

-- The compiled text is its context; run, it throws that.
abbrev measure : EvalSource → Attempt ℕ
measure s = returned s.context

abbrev throw_it : ℕ → Attempt ℕ
throw_it n = threw n

abbrev eval_args : List EvalArg
eval_args = text (codes "f.js") ∷ text (codes "throw 4") ∷ number (pos 3) ∷ []

j_eval-Evaluates_example :
    Evaluates measure throw_it true (some 4) eval_args true (rethrown 4, true)
unfolding j_eval
j_eval-Evaluates_example = j_eval-Evaluates measure throw_it true (some 4) eval_args true
