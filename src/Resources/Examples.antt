-- ===== src/Resources/Examples.antt =====
-- do_script of src/main.cc with a boot file that cannot be loaded.
use threadjs_lib.Base.{◌≡◌, true, false, ◌∷◌, [], none}
use threadjs_lib.Resources.{Course, ok, loop, node_env, entered, do_script_resources}
use threadjs_lib.Resources.Leaks.{do_script_resources-left}

abbrev no_boot : Course
no_boot = record {
  node = true;
  busy = false;
  heap_fails = false;
  code_fails = false;
  boot_fails = true;
}

do_script_resources-left_example :
    do_script_resources no_boot entered
    ≡ ok (record {
      live = node_env ∷ loop ∷ [];
      locked = false;
      data_point = none;
      timepool = none;
      del_env = none;
    })
do_script_resources-left_example = do_script_resources-left no_boot
