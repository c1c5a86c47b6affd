-- ===== src/Timers/Globals.antt =====
-- src/timeImpl.cc, InitTimerFunctions and UninstallTimerFunctions: what the global object has.
use threadjs_lib.Base.{
  ℕ, ◌≡◌, refl, ap, ◌∙◌, Bool, true, false, List, [], ◌∷◌, Option, none, some, if◌then◌else◌,
  text_eq, text_eq_same, text_eq_apart, All, Bool-cases, inl, inr,
}
use threadjs_lib.Errors.{codes}
use threadjs_lib.Timers.Methods.{
  FunctionCallback, j_set_timeout, j_set_interval, j_set_immediate, j_clear_time, j_next_tick,
  Property, method, Global, get_property, set_property, delete_property, set_method, rm_method,
  all_time_method, set_all, remove_all, init_timer_functions, uninstall_timer_functions,
}

-- The callback that a table of methods has for a name, the last one of it.
abbrev pub callback_of : List ℕ → List (List ℕ × FunctionCallback) → Option FunctionCallback
callback_of n [] = none
callback_of n ((k, fn) ∷ ms) = elim (callback_of n ms) [
  | some f ↦ some f
  | none ↦ if text_eq k n then some fn else none
]

module _ {ℓ} {A : Type ℓ} where
  -- Where the first test of two decides, or both lead to the same.
  if_again : (b : Bool) (x y z : A) → (if b then x else y) ≡ (if b then x else if b then z else y)
  if_again true x y z = refl
  if_again false x y z = refl

  if_alike : (b : Bool) (x : A) → x ≡ (if b then x else x)
  if_alike true x = refl
  if_alike false x = refl

module _ {ℓ} {A : Type ℓ} where
  get-set_property :
      (k n : List ℕ) (v : A) (ps : List (List ℕ × A))
      → get_property n (set_property k v ps) ≡ (if text_eq k n then some v else get_property n ps)
  unfolding get_property set_property
  get-set_property k n v [] = refl
  get-set_property k n v ((j, u) ∷ ps) = elim (Bool-cases (text_eq j k)) [
    | inl hit ↦
        rw hit (
          rw (text_eq_same j k n hit)
            (if_again (text_eq k n) (some v) (get_property n ps) (some u)))
    | inr miss ↦ rw miss (elim (Bool-cases (text_eq j n)) [
      | inr miss' ↦ rw miss' (get-set_property k n v ps)
      | inl hit' ↦ rw (hit', text_eq_apart j k n miss hit') refl
    ])
  ]

  get-delete_property :
      (k n : List ℕ) (ps : List (List ℕ × A))
      → get_property n (delete_property k ps) ≡ (if text_eq k n then none else get_property n ps)
  unfolding get_property delete_property
  get-delete_property k n [] = if_alike (text_eq k n) none
  get-delete_property k n ((j, u) ∷ ps) = elim (Bool-cases (text_eq j k)) [
    | inl hit ↦ rw hit (
        get-delete_property k n ps
        ∙ rw (text_eq_same j k n hit) (if_again (text_eq k n) none (get_property n ps) (some u)))
    | inr miss ↦ rw miss (elim (Bool-cases (text_eq j n)) [
      | inr miss' ↦ rw miss' (get-delete_property k n ps)
      | inl hit' ↦ rw (hit', text_eq_apart j k n miss hit') refl
    ])
  ]

-- What a name of the global object has behind the table `ms` of methods.
abbrev pub with_methods : Option FunctionCallback → ℕ → Option Property → Option Property
with_methods (some fn) pool o = some (method fn pool)
with_methods none pool o = o

abbrev pub without_methods : Option FunctionCallback → Option Property → Option Property
without_methods (some fn) o = none
without_methods none o = o

set_all-get :
    (ms : List (List ℕ × FunctionCallback)) (pool : ℕ) (n : List ℕ) (g : Global)
    → get_property n (set_all ms pool g).properties
      ≡ with_methods (callback_of n ms) pool (get_property n g.properties)
unfolding set_all set_method
set_all-get [] pool n g = refl
set_all-get ((k, fn) ∷ ms) pool n g =
    set_all-get ms pool n (record g { properties = set_property k (method fn pool) g.properties })
    ∙ ap (with_methods (callback_of n ms) pool) (get-set_property k n (method fn pool) g.properties)
    ∙ last (callback_of n ms) (text_eq k n)
  where
    last :
        (o : Option FunctionCallback) (b : Bool)
        → with_methods o pool (if b then some (method fn pool) else get_property n g.properties)
          ≡ with_methods
              (elim o [ some f ↦ some f | none ↦ if b then some fn else none ])
              pool
              (get_property n g.properties)
    last (some f) b = refl
    last none true = refl
    last none false = refl

remove_all-get :
    (ms : List (List ℕ × FunctionCallback)) (n : List ℕ) (g : Global)
    → get_property n (remove_all ms g).properties
      ≡ without_methods (callback_of n ms) (get_property n g.properties)
unfolding remove_all rm_method
remove_all-get [] n g = refl
remove_all-get ((k, fn) ∷ ms) n g =
    remove_all-get ms n (record g { properties = delete_property k g.properties })
    ∙ ap (without_methods (callback_of n ms)) (get-delete_property k n g.properties)
    ∙ last (callback_of n ms) (text_eq k n)
  where
    last :
        (o : Option FunctionCallback) (b : Bool)
        → without_methods o (if b then none else get_property n g.properties)
          ≡ without_methods
              (elim o [ some f ↦ some f | none ↦ if b then some fn else none ])
              (get_property n g.properties)
    last (some f) b = refl
    last none true = refl
    last none false = refl

-- What a name has after InitTimerFunctions, and after UninstallTimerFunctions behind it.
property-init :
    (pool target : ℕ) (n : List ℕ) (g : Global)
    → (get_property n (init_timer_functions pool target g).properties
        ≡ with_methods (callback_of n all_time_method) pool (get_property n g.properties))
      × (get_property n (uninstall_timer_functions (init_timer_functions pool target g)).properties
          ≡ without_methods (callback_of n all_time_method) (get_property n g.properties))
unfolding init_timer_functions uninstall_timer_functions
property-init pool target n g =
    let g' : Global = record g { event_target = some target } in
    let set = set_all-get all_time_method pool n g' in
    (
      set,
      remove_all-get all_time_method n (set_all all_time_method pool g')
          ∙ ap (without_methods (callback_of n all_time_method)) set
          ∙ twice (callback_of n all_time_method),
    )
  where
    twice :
        (o : Option FunctionCallback)
        → without_methods o (with_methods o pool (get_property n g.properties))
          ≡ without_methods o (get_property n g.properties)
    twice (some f) = refl
    twice none = refl

callback_of_other :
    (n : List ℕ) (ms : List (List ℕ × FunctionCallback))
    → All (λ (k, fn). text_eq k n ≡ false) ms
    → callback_of n ms ≡ none
callback_of_other n [] h = refl
callback_of_other n ((k, fn) ∷ ms) h = rw (callback_of_other n ms h.1, h.0) refl

set_all-target :
    (ms : List (List ℕ × FunctionCallback)) (pool : ℕ) (g : Global)
    → (set_all ms pool g).event_target ≡ g.event_target
unfolding set_all set_method
set_all-target [] pool g = refl
set_all-target ((k, fn) ∷ ms) pool g = set_all-target ms pool (set_method k fn pool g)

target-init :
    (pool target : ℕ) (g : Global) → (init_timer_functions pool target g).event_target ≡ some target
unfolding init_timer_functions
target-init pool target g =
    set_all-target all_time_method pool (record g { event_target = some target })

-- The names of the functions for JavaScript.
abbrev pub timer_names : List (List ℕ)
timer_names =
    codes "setTimeout"
    ∷ codes "setInterval"
    ∷ codes "setImmediate"
    ∷ codes "clearTimeout"
    ∷ codes "clearInterval"
    ∷ codes "clearImmediate"
    ∷ codes "_next_tick"
    ∷ []

abbrev pub IsOther : List ℕ → Type 0
IsOther n = All (λ k. text_eq k n ≡ false) timer_names

-- A global object `g'` with the functions of a pool on it, and `g` before it had them.
pub record Installed (pool target : ℕ) (g g' : Global) : Type 0 where
  pub set_timeout :
      get_property (codes "setTimeout") g'.properties ≡ some (method j_set_timeout pool)
  pub set_interval :
      get_property (codes "setInterval") g'.properties ≡ some (method j_set_interval pool)
  pub set_immediate :
      get_property (codes "setImmediate") g'.properties ≡ some (method j_set_immediate pool)
  pub clear_timeout :
      get_property (codes "clearTimeout") g'.properties ≡ some (method j_clear_time pool)
  pub clear_interval :
      get_property (codes "clearInterval") g'.properties ≡ some (method j_clear_time pool)
  pub clear_immediate :
      get_property (codes "clearImmediate") g'.properties ≡ some (method j_clear_time pool)
  pub next_tick : get_property (codes "_next_tick") g'.properties ≡ some (method j_next_tick pool)
  pub target_there : g'.event_target ≡ some target
  pub others : (n : List ℕ) → IsOther n → get_property n g'.properties ≡ get_property n g.properties

-- A global object `g'` without them, which `g` has not yet or no longer.
pub record Uninstalled (g g' : Global) : Type 0 where
  pub none_left : All (λ n. get_property n g'.properties ≡ none) timer_names
  pub others : (n : List ℕ) → IsOther n → get_property n g'.properties ≡ get_property n g.properties

-- InitTimerFunctions gives the global object setTimeout, setInterval, setImmediate, clearTimeout,
-- clearInterval, clearImmediate and _next_tick as what they are called, for the pool that was
-- given, and the event target; UninstallTimerFunctions takes these seven away again. Under every
-- other name the global object has through both what it had.
pub uninstall_timer_functions-init :
    (pool target : ℕ) (g : Global)
    → Installed pool target g (init_timer_functions pool target g)
      × Uninstalled g (uninstall_timer_functions (init_timer_functions pool target g))
unfolding text_eq
uninstall_timer_functions-init pool target g = (
  record {
    set_timeout = (init (codes "setTimeout")).0;
    set_interval = (init (codes "setInterval")).0;
    set_immediate = (init (codes "setImmediate")).0;
    clear_timeout = (init (codes "clearTimeout")).0;
    clear_interval = (init (codes "clearInterval")).0;
    clear_immediate = (init (codes "clearImmediate")).0;
    next_tick = (init (codes "_next_tick")).0;
    target_there = target-init pool target g;
    others = λ n h.
        (init n).0
        ∙ ap (λ o. with_methods o pool (get_property n g.properties))
            (callback_of_other n all_time_method h);
  },
  record {
    none_left = (
      (init (codes "setTimeout")).1,
      (
        (init (codes "setInterval")).1,
        (
          (init (codes "setImmediate")).1,
          (
            (init (codes "clearTimeout")).1,
            (
              (init (codes "clearInterval")).1,
              ((init (codes "clearImmediate")).1, ((init (codes "_next_tick")).1, tt)),
            ),
          ),
        ),
      ),
    );
    others = λ n h.
        (init n).1
        ∙ ap (λ o. without_methods o (get_property n g.properties))
            (callback_of_other n all_time_method h);
  },
)
  where
    init :
        (n : List ℕ)
        → (get_property n (init_timer_functions pool target g).properties
            ≡ with_methods (callback_of n all_time_method) pool (get_property n g.properties))
          × (get_property n
                (uninstall_timer_functions (init_timer_functions pool target g)).properties
              ≡ without_methods (callback_of n all_time_method) (get_property n g.properties))
    init n = property-init pool target n g
