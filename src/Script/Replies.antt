-- ===== src/Script/Replies.antt =====
-- src/main.cc, j_eval and j_create_context: what they reply, and where that comes from.
use threadjs_lib.Base.{
  ℕ, ◌≡◌, ◌≢◌, refl, ap, Bool, true, false, List, [], ◌∷◌, ◌++◌, Option, none, some, get_elem?,
  take, length,
}
use threadjs_lib.Errors.{codes}
use threadjs_lib.Script.Eval.{
  Attempt, returned, threw, terminated, EvalArg, text, number, object, other, eval_arg, EvalReply,
  value, undefined, error, reference_error, rethrown, throw_when_caught, EvalSource, offset_of,
  context_of, eval_source, j_eval, j_create_context,
}

module _ {U V : Type 0} (compile : EvalSource → Attempt U) (run : U → Attempt V) where
  -- The text that a call with these arguments means.
  abbrev pub Means : Option ℕ → List EvalArg → EvalSource → Type 0
  Means current args src =
      (eval_arg 0 args ≡ text src.filename)
      × (eval_arg 1 args ≡ text src.code)
      × (offset_of (eval_arg 2 args) ≡ src.offset)
      × (context_of current (eval_arg 3 args) ≡ some src.context)

  -- What j_eval replies, with the flag of a termination that is asked for.
  pub data Evaluates (alive : Bool) (current : Option ℕ) (args : List EvalArg) (asked : Bool)
      : EvalReply V × Bool → Type 0 where
    dead : alive ≡ false → Evaluates alive current args asked (undefined, asked)
    no_filename :
        alive ≡ true
        → ((f : List ℕ) → eval_arg 0 args ≢ text f)
        → Evaluates alive current args asked
            (error (codes "first argument must FILENAME string"), asked)
    no_code :
        (f : List ℕ)
        → alive ≡ true
        → eval_arg 0 args ≡ text f
        → ((c : List ℕ) → eval_arg 1 args ≢ text c)
        → Evaluates alive current args asked
            (error (codes "first argument must JSCODE string"), asked)
    no_context :
        (f c : List ℕ)
        → alive ≡ true
        → eval_arg 0 args ≡ text f
        → eval_arg 1 args ≡ text c
        → context_of current (eval_arg 3 args) ≡ none
        → Evaluates alive current args asked
            (reference_error (codes "Could not instantiate context"), asked)
    gives :
        (src : EvalSource) (u : U) (v : V)
        → alive ≡ true
        → Means current args src
        → compile src ≡ returned u
        → run u ≡ returned v
        → Evaluates alive current args asked (value v, asked)
    compile_throws :
        (src : EvalSource) (e : ℕ)
        → alive ≡ true
        → Means current args src
        → compile src ≡ threw e
        → Evaluates alive current args asked (rethrown e, asked)
    run_throws :
        (src : EvalSource) (u : U) (e : ℕ)
        → alive ≡ true
        → Means current args src
        → compile src ≡ returned u
        → run u ≡ threw e
        → Evaluates alive current args asked (rethrown e, asked)
    compile_stops :
        (src : EvalSource)
        → alive ≡ true
        → Means current args src
        → compile src ≡ terminated
        → Evaluates alive current args asked (error (codes "Script execution interrupted."), false)
    run_stops :
        (src : EvalSource) (u : U)
        → alive ≡ true
        → Means current args src
        → compile src ≡ returned u
        → run u ≡ terminated
        → Evaluates alive current args asked (error (codes "Script execution interrupted."), false)

  eval_source-Evaluates :
      (current : Option ℕ) (args : List EvalArg) (src : EvalSource) (asked : Bool)
      → Means current args src
      → Evaluates true current args asked (eval_source compile run src asked)
  unfolding eval_source throw_when_caught
  eval_source-Evaluates current args src asked means = compiled (compile src) refl
    where
      ran :
          (u : U)
          → compile src ≡ returned u
          → (o : Attempt V) → run u ≡ o
          → Evaluates true current args asked
              (throw_when_caught o (λ v later. (value v, later)) asked)
      ran u e (returned v) e' = gives src u v refl means e e'
      ran u e (threw x) e' = run_throws src u x refl means e e'
      ran u e terminated e' = run_stops src u refl means e e'

      compiled :
          (o : Attempt U)
          → compile src ≡ o
          → Evaluates true current args asked (
              throw_when_caught o
                (λ u. throw_when_caught (run u) (λ v later. (value v, later)))
                asked)
      compiled (returned u) e = ran u e (run u) refl
      compiled (threw x) e = compile_throws src x refl means e
      compiled terminated e = compile_stops src refl means e

  -- j_eval replies as follows, whatever it is called with: undefined on a thread that is not alive;
  -- an error where the name or the code is no string or there is no context; else, of the text, the
  -- name, the line and the context that the arguments mean, the value where it compiles and runs to
  -- one, the exception where compiling or running throws it, and where a termination stops one of
  -- them an Error "Script execution interrupted.", and then alone the termination is asked for no
  -- longer.
  pub j_eval-Evaluates :
      (alive : Bool) (current : Option ℕ) (args : List EvalArg) (asked : Bool)
      → Evaluates alive current args asked (j_eval compile run alive current args asked)
  unfolding j_eval
  j_eval-Evaluates false current args asked = dead refl
  j_eval-Evaluates true current args asked = named (eval_arg 0 args) refl
    where
      placed :
          (f c : List ℕ)
          → eval_arg 0 args ≡ text f
          → eval_arg 1 args ≡ text c
          → (o : Option ℕ) → context_of current (eval_arg 3 args) ≡ o
          → let r : EvalReply V × Bool = elim o [
            | none ↦ (reference_error (codes "Could not instantiate context"), asked)
            | some x ↦
                eval_source compile run
                  (record {
                    filename = f;
                    code = c;
                    offset = offset_of (eval_arg 2 args);
                    context = x;
                  })
                  asked
          ] in
            Evaluates true current args asked r
      placed f c p q none e = no_context f c refl p q e
      placed f c p q (some x) e =
          eval_source-Evaluates current args
            (record { filename = f; code = c; offset = offset_of (eval_arg 2 args); context = x })
            asked (p, q, refl, e)

      coded :
          (f : List ℕ)
          → eval_arg 0 args ≡ text f
          → (a : EvalArg) → eval_arg 1 args ≡ a
          → let r : EvalReply V × Bool = elim a [
            | text c ↦ elim (context_of current (eval_arg 3 args)) [
              | none ↦ (reference_error (codes "Could not instantiate context"), asked)
              | some x ↦
                  eval_source compile run
                    (record {
                      filename = f;
                      code = c;
                      offset = offset_of (eval_arg 2 args);
                      context = x;
                    })
                    asked
            ]
            | _ ↦ (error (codes "first argument must JSCODE string"), asked)
          ] in
            Evaluates true current args asked r
      coded f p (text c) q = placed f c p q (context_of current (eval_arg 3 args)) refl
      coded f p (number n) q = no_code f refl p (λ c e. cc (q, e))
      coded f p (object o) q = no_code f refl p (λ c e. cc (q, e))
      coded f p other q = no_code f refl p (λ c e. cc (q, e))

      named :
          (a : EvalArg)
          → eval_arg 0 args ≡ a
          → let r : EvalReply V × Bool = elim a [
            | text f ↦ elim (eval_arg 1 args) [
              | text c ↦ elim (context_of current (eval_arg 3 args)) [
                | none ↦ (reference_error (codes "Could not instantiate context"), asked)
                | some x ↦
                    eval_source compile run
                      (record {
                        filename = f;
                        code = c;
                        offset = offset_of (eval_arg 2 args);
                        context = x;
                      })
                      asked
              ]
              | _ ↦ (error (codes "first argument must JSCODE string"), asked)
            ]
            | _ ↦ (error (codes "first argument must FILENAME string"), asked)
          ] in
            Evaluates true current args asked r
      named (text f) p = coded f p (eval_arg 1 args) refl
      named (number n) p = no_filename refl (λ f e. cc (p, e))
      named (object o) p = no_filename refl (λ f e. cc (p, e))
      named other p = no_filename refl (λ f e. cc (p, e))

  -- A termination that comes while the text runs is an Error that the caller can catch, and is asked
  -- for no longer.
  pub eval_source-terminated :
      (src : EvalSource) (u : U) (asked : Bool)
      → compile src ≡ returned u
      → run u ≡ terminated
      → eval_source compile run src asked ≡ (error (codes "Script execution interrupted."), false)
  unfolding eval_source
  eval_source-terminated src u asked e e' = rw e (rw e' refl)

get_elem_last : (xs : List ℕ) (x : ℕ) → get_elem? (xs ++ x ∷ []) (length xs) ≡ some x
get_elem_last [] x = refl
get_elem_last (y ∷ xs) x = get_elem_last xs x

take_first : (xs : List ℕ) (x : ℕ) → take (length xs) (xs ++ x ∷ []) ≡ xs
take_first [] x = refl
take_first (y ∷ xs) x = ap (◌∷◌ y) (take_first xs x)

-- What is run in the context of the global object that j_create_context gave has the security token
-- of the context that asked for it; the contexts that there are stay as they were.
pub j_create_context-token :
    (current g : ℕ) (tokens tokens' : List ℕ)
    → j_create_context true current tokens ≡ (value g, tokens')
    → (get_elem? tokens' g ≡ get_elem? tokens current) × (take (length tokens) tokens' ≡ tokens)
unfolding j_create_context
j_create_context-token current g tokens tokens' e = made (get_elem? tokens current) refl e
  where
    made :
        (o : Option ℕ)
        → get_elem? tokens current ≡ o
        → ◌≡◌ {A = EvalReply ℕ × List ℕ}
            (elim o [
              | none ↦ (undefined, tokens)
              | some token ↦ (value (length tokens), tokens ++ token ∷ [])
            ])
            (value g, tokens')
        → (get_elem? tokens' g ≡ get_elem? tokens current) × (take (length tokens) tokens' ≡ tokens)
    made none found e' = cc e'
    made (some token) found e' =
        let there : tokens ++ token ∷ [] ≡ tokens' = cc e' in
        let place : length tokens ≡ g = cc e' in
        (cc (get_elem_last tokens token, found, there, place), cc (take_first tokens token, there))
