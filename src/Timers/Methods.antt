-- ===== src/Timers/Methods.antt =====
-- src/timeImpl.cc, the functions of JavaScript with their tests of the arguments, and how they come
-- to the global object and go from it, with set_method and rm_method of src/tools.h. The global
-- object is its own properties and its hidden value event_target; set_method's property is always
-- writable and configurable there.
use threadjs_lib.Base.{
  ℕ, Bool, true, false, List, [], ◌∷◌, Option, none, some, if◌then◌else◌, get_elem?, text_eq,
}
use threadjs_lib.Errors.{codes}
use threadjs_lib.Timers.{
  Script, Outcome, ok, and_then, TimerPool, create_timer, push_tick, start, clear_time,
}

-- An argument: a function, a Uint32, an object with its hidden value `id` if it has one, or another
-- value; undefined is another value.
pub data Arg : Type 0 where
  function : Script → Arg
  uint32 : ℕ → Arg
  object : Option ℕ → Arg
  other : Arg

abbrev pub arg : ℕ → List Arg → Arg
arg i args = elim (get_elem? args i) [ none ↦ other | some a ↦ a ]

-- What a call comes to: an object with the hidden value `id`, undefined, an error, or a use of what
-- is not there.
pub data Reply : Type 0 where
  handle : ℕ → TimerPool → Reply
  undefined : TimerPool → Reply
  throws : List ℕ → Reply
  fault : Reply

abbrev pub replied : Outcome (ℕ × TimerPool) → Reply
replied (ok (i, w)) = handle i w
replied o = fault

abbrev pub cleared : Outcome TimerPool → Reply
cleared (ok w) = undefined w
cleared o = fault

-- _j_time; `is_tick` is TIME_TICK in the mask.
unfoldable pub j_time : List Arg → ℕ → ℕ → Bool → TimerPool → Reply
unfolding create_timer push_tick start
j_time args timeout repeat is_tick w = elim (arg 0 args) [
  | function cb ↦ replied (
      and_then (create_timer cb w) (λ (i, w₁).
        if is_tick
        then ok (i, push_tick i w₁)
        else and_then (start timeout repeat i w₁) (λ w₂. ok (i, w₂))))
  | _ ↦ throws (codes "callback function is null")
]

-- The functions that v8 calls.
pub data FunctionCallback : Type 0 where
  j_set_timeout j_set_interval j_set_immediate j_clear_time j_next_tick : FunctionCallback

unfoldable pub invoke : FunctionCallback → List Arg → TimerPool → Reply
unfolding j_time clear_time
invoke j_set_timeout args w = elim (arg 1 args) [
  | uint32 delay ↦ j_time args delay 0 false w
  | _ ↦ throws (codes "delay milliseconds is null")
]
invoke j_set_interval args w = elim (arg 1 args) [
  | uint32 repeat ↦ j_time args repeat repeat false w
  | _ ↦ throws (codes "repeat milliseconds is null")
]
invoke j_set_immediate args w = j_time args 0 0 false w
invoke j_next_tick args w = j_time args 0 0 true w
-- GetHiddenValue gives an empty handle where there is no such value, and IsUint32 reads through it.
invoke j_clear_time args w = elim (arg 0 args) [
  | object none ↦ fault
  | object (some id) ↦ cleared (clear_time id w)
  | _ ↦ undefined w
]

-- A property: a function with the pool that it was made for, or any other value.
pub data Property : Type 0 where
  method : FunctionCallback → (pool : ℕ) → Property
  value : ℕ → Property

pub record Global : Type 0 where
  pub properties : List (List ℕ × Property)
  pub event_target : Option ℕ

module _ {ℓ} {A : Type ℓ} where
  unfoldable pub get_property : List ℕ → List (List ℕ × A) → Option A
  get_property n [] = none
  get_property n ((k, v) ∷ ps) = if text_eq k n then some v else get_property n ps

  unfoldable pub set_property : List ℕ → A → List (List ℕ × A) → List (List ℕ × A)
  set_property n v [] = (n, v) ∷ []
  set_property n v ((k, u) ∷ ps) = if text_eq k n then (k, v) ∷ ps else (k, u) ∷ set_property n v ps

  unfoldable pub delete_property : List ℕ → List (List ℕ × A) → List (List ℕ × A)
  delete_property n [] = []
  delete_property n ((k, u) ∷ ps) =
      if text_eq k n then delete_property n ps else (k, u) ∷ delete_property n ps

unfoldable pub set_method : List ℕ → FunctionCallback → ℕ → Global → Global
unfolding set_property
set_method name callback pool g = record g {
  properties = set_property name (method callback pool) g.properties;
}

unfoldable pub rm_method : List ℕ → Global → Global
unfolding delete_property
rm_method name g = record g { properties = delete_property name g.properties }

-- ALL_TIME_METHOD.
abbrev pub all_time_method : List (List ℕ × FunctionCallback)
all_time_method =
    (codes "setTimeout", j_set_timeout)
    ∷ (codes "setInterval", j_set_interval)
    ∷ (codes "setImmediate", j_set_immediate)
    ∷ (codes "clearTimeout", j_clear_time)
    ∷ (codes "clearInterval", j_clear_time)
    ∷ (codes "clearImmediate", j_clear_time)
    ∷ (codes "_next_tick", j_next_tick)
    ∷ []

-- The expansion of ALL_TIME_METHOD by SET and by REMOVE.
unfoldable pub set_all : List (List ℕ × FunctionCallback) → ℕ → Global → Global
unfolding set_method
set_all [] pool g = g
set_all ((name, fn) ∷ ms) pool g = set_all ms pool (set_method name fn pool g)

unfoldable pub remove_all : List (List ℕ × FunctionCallback) → Global → Global
unfolding rm_method
remove_all [] g = g
remove_all ((name, fn) ∷ ms) g = remove_all ms (rm_method name g)

unfoldable pub init_timer_functions : ℕ → ℕ → Global → Global
unfolding set_all
init_timer_functions pool target g =
    set_all all_time_method pool (record g { event_target = some target })

unfoldable pub uninstall_timer_functions : Global → Global
unfolding remove_all
uninstall_timer_functions g = remove_all all_time_method g
