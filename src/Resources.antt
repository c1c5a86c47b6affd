-- ===== src/Resources.antt =====
-- src/tools.h, LocalPoint, AutoDispose and LockHandle, and what do_script of src/main.cc makes and
-- releases by them and by free_sub_loop of src/data.cc, on each way through it. `new` does not fail.
pub mod Leaks
pub mod Report
mod Examples
use threadjs_lib.Base.{ℕ, ◌==◌, Bool, true, false, List, [], ◌∷◌, Option, none, some, if◌then◌else◌}
use threadjs_lib.IdContainer.{contains}

-- What is made on the heap; the numbers name one of each, and `erase_one` takes one away.
abbrev pub Thing : Type 0
Thing = ℕ

abbrev pub req_data : Thing
req_data = 1

abbrev pub isolate : Thing
isolate = 2

abbrev pub loop : Thing
loop = 3

abbrev pub node_env : Thing
node_env = 4

abbrev pub sub_event : Thing
sub_event = 5

abbrev pub endpoint : Thing
endpoint = 6

abbrev pub time_pool : Thing
time_pool = 7

-- `live` is the heap, `locked` the global_lock, and the rest what the local pointers hold.
pub record Locals : Type 0 where
  pub live : List Thing
  pub locked : Bool
  pub data_point : Option Thing
  pub timepool : Option Thing
  pub del_env : Option Thing

-- `fault` is a use or a second deletion of what is not there, or a second lock_handle of the mutex.
pub data Exit : Type 0 where
  ok : Locals → Exit
  thrown : ℕ → Locals → Exit
  fault : Exit

abbrev pub Command : Type 0
Command = Locals → Exit

abbrev pub then_on : Exit → Command → Exit
then_on (ok s) k = k s
then_on (thrown n s) k = thrown n s
then_on fault k = fault

infixr 20 ◌>>◌
abbrev pub ◌>>◌ : Command → Command → Command
c >> d = λ s. then_on (c s) d

abbrev pub skip : Command
skip s = ok s

-- A statement that throws, if it does; `n` is the step.
abbrev pub may_throw : Bool → ℕ → Command
may_throw b n s = if b then thrown n s else ok s

unfoldable pub erase_one : Thing → List Thing → List Thing
erase_one t [] = []
erase_one t (u ∷ ts) = if u == t then ts else u ∷ erase_one t ts

abbrev pub make : Thing → Command
make t s = ok (record s { live = t ∷ s.live })

abbrev pub needs : Thing → Command
needs t s = if contains t s.live then ok s else fault

unfoldable pub delete : Thing → Command
unfolding erase_one contains
delete t s = if contains t s.live then ok (record s { live = erase_one t s.live }) else fault

-- DEL of a LocalPoint: ~TimerPool closes its handles on the loop, and FreeEnvironment takes the
-- isolate.
unfoldable pub del : Thing → Command
unfolding delete contains
del t =
    if t == time_pool
    then needs loop >> delete t
    else if t == node_env
    then needs isolate >> delete t
    else delete t

-- reset and the destructor of a LocalPoint, which is a field of Locals.
unfoldable pub reset :
    (Locals → Option Thing) → (Option Thing → Locals → Locals) → Option Thing → Command
unfolding del
reset get put p s = elim (get s) [
  | none ↦ ok (put p s)
  | some t ↦ then_on (del t s) (λ s'. ok (put p s'))
]

unfoldable pub reset_data : Option Thing → Command
unfolding reset
reset_data = reset (λ s. s.data_point) (λ p s. record s { data_point = p })

unfoldable pub reset_timepool : Option Thing → Command
unfolding reset
reset_timepool = reset (λ s. s.timepool) (λ p s. record s { timepool = p })

unfoldable pub reset_env : Option Thing → Command
unfolding reset
reset_env = reset (λ s. s.del_env) (λ p s. record s { del_env = p })

-- The destructors at the end of a scope, which run whether its body ends or throws.
unfoldable pub scoped : Command → Command → Command
scoped body leave s = elim (body s) [
  | ok s' ↦ leave s'
  | thrown n s' ↦ then_on (leave s') (λ s''. thrown n s'')
  | fault ↦ fault
]

-- LockHandle.
unfoldable pub lock_handle : Command
lock_handle s = if s.locked then fault else ok (record s { locked = true })

unfoldable pub unlock_handle : Command
unlock_handle s = if s.locked then ok (record s { locked = false }) else fault

-- free_sub_loop; `busy` is what uv_loop_close says, and then DEL_LOOP leaves the loop. The handle
-- sub_event is deleted by its closing callback in uv_run.
unfoldable pub free_resources : Bool → Command
unfolding delete
free_resources busy =
    delete endpoint >> needs loop >> delete sub_event >> (if busy then skip else delete loop)

-- What v8 and node decide: which steps throw, whether there is a boot_node_file, and whether the loop
-- is busy at the end.
pub record Course : Type 0 where
  pub node : Bool
  pub busy : Bool
  pub heap_fails : Bool
  pub code_fails : Bool
  pub boot_fails : Bool

-- From RUN_STEP(9) on; _del_env takes the environment once it is loaded.
unfoldable pub boot : Course → Command
unfolding scoped lock_handle unlock_handle reset_env
boot c =
    if c.node
    then lock_handle
      >> scoped
          (needs loop >> make node_env >> may_throw c.boot_fails 10 >> reset_env (some node_env))
          unlock_handle
    else skip

unfoldable pub loop_part : Course → Command
unfolding boot reset_env reset_timepool free_resources
loop_part c =
    boot c
    >> make sub_event
    >> make endpoint
    >> (if c.node then skip else needs loop >> make time_pool >> reset_timepool (some time_pool))
    >> needs isolate
    >> (if c.node
        then free_resources c.busy >> reset_env none
        else reset_timepool none >> free_resources c.busy)

-- The try block.
unfoldable pub try_block : Course → Command
unfolding scoped loop_part reset_env delete
try_block c =
    make isolate
    >> scoped
        (may_throw c.heap_fails 1
          >> may_throw c.code_fails 2
          >> make loop
          >> scoped (loop_part c) (reset_env none))
        (delete isolate)

-- The catch block, which sends a message and goes on.
unfoldable pub catching : Command → Command
catching body s = elim (body s) [ ok s' ↦ ok s' | thrown n s' ↦ ok s' | fault ↦ fault ]

unfoldable pub do_script_resources : Course → Command
unfolding scoped catching try_block reset_data reset_timepool
do_script_resources c =
    reset_data (some req_data)
    >> scoped (scoped (catching (try_block c)) (reset_timepool none)) (reset_data none)

-- At the call of do_script, which gets the ReqData.
abbrev pub entered : Locals
entered = record {
  live = req_data ∷ [];
  locked = false;
  data_point = none;
  timepool = none;
  del_env = none;
}
