-- ===== src/Script/Eval.antt =====
-- src/main.cc, j_eval and j_create_context: a text that a thread compiles and runs later. The
-- compiler and the running of v8 are parameters; each comes to an end by a result, an exception, or
-- the termination that V8::TerminateExecution asked for.
use threadjs_lib.Base.{
  ℕ, ℤ, pos, Bool, false, List, [], ◌∷◌, ◌++◌, Option, none, some, get_elem?, length, if◌then◌else◌,
}
use threadjs_lib.Errors.{codes}

pub data Attempt (A : Type 0) : Type 0 where
  returned : A → Attempt A
  threw : (exception : ℕ) → Attempt A
  terminated : Attempt A

-- An argument, an object with its creation context if that is there.
pub data EvalArg : Type 0 where
  text : List ℕ → EvalArg
  number : ℤ → EvalArg
  object : Option ℕ → EvalArg
  other : EvalArg

abbrev pub eval_arg : ℕ → List EvalArg → EvalArg
eval_arg i args = elim (get_elem? args i) [ none ↦ other | some a ↦ a ]

-- What the caller gets: a value, undefined, an Error or a ReferenceError of a text, or an exception
-- that is thrown on.
pub data EvalReply (V : Type 0) : Type 0 where
  value : V → EvalReply V
  undefined : EvalReply V
  error reference_error : List ℕ → EvalReply V
  rethrown : ℕ → EvalReply V

-- THROW_WHEN_CAUGHT behind a call; the flag is whether a termination is asked for, which
-- CancelTerminateExecution takes back.
unfoldable pub throw_when_caught :
    {A V : Type 0} → Attempt A → (A → Bool → EvalReply V × Bool) → Bool → EvalReply V × Bool
throw_when_caught (returned a) k asked = k a asked
throw_when_caught (threw e) k asked = (rethrown e, asked)
throw_when_caught terminated k asked = (error (codes "Script execution interrupted."), false)

-- ScriptCompiler::Source with its ScriptOrigin and the context that it is bound to.
pub record EvalSource : Type 0 where
  pub filename : List ℕ
  pub code : List ℕ
  pub offset : ℤ
  pub context : ℕ

abbrev pub offset_of : EvalArg → ℤ
offset_of (number n) = n
offset_of _ = pos 0

abbrev pub context_of : Option ℕ → EvalArg → Option ℕ
context_of current (object c) = c
context_of current _ = current

module _ {U V : Type 0} (compile : EvalSource → Attempt U) (run : U → Attempt V) where
  -- From the TryCatch on.
  unfoldable pub eval_source : EvalSource → Bool → EvalReply V × Bool
  unfolding throw_when_caught
  eval_source src =
      throw_when_caught (compile src)
        (λ unbound. throw_when_caught (run unbound) (λ v asked. (value v, asked)))

  -- `alive` is whether the id of the thread is, `current` the context of the isolate.
  unfoldable pub j_eval : Bool → Option ℕ → List EvalArg → Bool → EvalReply V × Bool
  unfolding eval_source
  j_eval alive current args asked =
      if alive
      then elim (eval_arg 0 args) [
        | text filename ↦ elim (eval_arg 1 args) [
          | text code ↦ elim (context_of current (eval_arg 3 args)) [
            | none ↦ (reference_error (codes "Could not instantiate context"), asked)
            | some c ↦
                eval_source
                  (record {
                    filename = filename;
                    code = code;
                    offset = offset_of (eval_arg 2 args);
                    context = c;
                  })
                  asked
          ]
          | _ ↦ (error (codes "first argument must JSCODE string"), asked)
        ]
        | _ ↦ (error (codes "first argument must FILENAME string"), asked)
      ]
      else (undefined, asked)

-- The security tokens of the contexts by their numbers; j_create_context gives the global object of
-- a new one, which has the token of the current one.
unfoldable pub j_create_context : Bool → ℕ → List ℕ → EvalReply ℕ × List ℕ
j_create_context alive current tokens =
    if alive
    then elim (get_elem? tokens current) [
      | none ↦ (undefined, tokens)
      | some token ↦ (value (length tokens), tokens ++ token ∷ [])
    ]
    else (undefined, tokens)
