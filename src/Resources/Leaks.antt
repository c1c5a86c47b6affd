-- ===== src/Resources/Leaks.antt =====
-- src/main.cc, do_script: what is left of what it made, on each way through it.
use threadjs_lib.Base.{◌≡◌, refl, Bool, true, false, List, [], ◌∷◌, none, if◌then◌else◌}
use threadjs_lib.IdContainer.{contains}
use threadjs_lib.Resources.{
  Thing, loop, node_env, ok, Course, entered, scoped, lock_handle, unlock_handle, erase_one, delete,
  del, reset, reset_data, reset_timepool, reset_env, free_resources, boot, loop_part, try_block,
  catching, do_script_resources,
}

-- What is not deleted.
abbrev pub left : Course → List Thing
left c =
    if c.heap_fails
    then []
    else if c.code_fails
    then []
    else if c.node
    then (if c.boot_fails then node_env ∷ loop ∷ [] else if c.busy then loop ∷ [] else [])
    else if c.busy
    then loop ∷ []
    else []

abbrev course : Bool → Bool → Bool → Bool → Bool → Course
course n b h k l = record { node = n; busy = b; heap_fails = h; code_fails = k; boot_fails = l }

-- do_script uses and deletes nothing that is not there, and gives global_lock back. It leaves
-- nothing of what it made, nor its ReqData, but for the loop where uv_loop_close finds it busy, and
-- for the loop and the environment of node where LoadEnvironment throws.
pub do_script_resources-left :
    (c : Course)
    → do_script_resources c entered
      ≡ ok (record {
        live = left c;
        locked = false;
        data_point = none;
        timepool = none;
        del_env = none;
      })
unfolding scoped lock_handle unlock_handle erase_one delete del reset reset_data reset_timepool
    reset_env free_resources boot loop_part try_block catching do_script_resources contains
do_script_resources-left c = by_cases c.node c.busy c.heap_fails c.code_fails c.boot_fails
  where
    by_cases :
        (n b h k l : Bool)
        → do_script_resources (course n b h k l) entered
          ≡ ok (record {
            live = left (course n b h k l);
            locked = false;
            data_point = none;
            timepool = none;
            del_env = none;
          })
    by_cases n b true k l = refl
    by_cases n b false true l = refl
    by_cases true b false false true = refl
    by_cases true true false false false = refl
    by_cases true false false false false = refl
    by_cases false true false false l = refl
    by_cases false false false false l = refl
