-- ===== src/Events/Examples.antt =====
-- src/data.h and src/main.cc: a thread's two endpoints, 1 behind the handle 5 and 2 behind the handle 6.
use threadjs_lib.Base.{
  ℕ, ◌==◌, ◌≡◌, refl, Bool, true, false, List, [], ◌∷◌, ◌++◌, none, some, arith, ◌>>=◌,
  if◌then◌else◌,
}
use threadjs_lib.StdMap.{find, insert}
use threadjs_lib.ObjectMap.{get, put, empty}
use threadjs_lib.Events.{
  EventData, RecvEventData, World, load, of_string, create_uv_async, set_peers, push_event,
  swap_not_send_peer, recv_other_thread_event, send_event, free_recv_event_from,
}
use threadjs_lib.Events.Channel.{
  Link, apart, bound, Op, main_sends, sub_sends, binds, sub_takes, main_takes, Represents, step,
  step-Refines,
}
use threadjs_lib.Events.Delivery.{to_sub, run, run_delivers}
use threadjs_lib.Events.Races.{push_overtakes}
use threadjs_lib.Events.Receive.{recv_other_thread_event-calls, send_event-free}

abbrev handles : ℕ → ℕ
handles h = if h == 5 then 1 else if h == 6 then 2 else 0

abbrev side : List EventData → RecvEventData
side early = record { not_send = some early; events = []; peer = none }

-- A world with the link `l`.
abbrev world : RecvEventData → RecvEventData → World
world main sub = record {
  objects = record { pool = (1, main) ∷ (2, sub) ∷ []; object_id = 2 };
  handle_data = handles;
  sent = [];
}

abbrev hello : EventData
hello = of_string (104 ∷ 105 ∷ [])

abbrev bye : EventData
bye = of_string (98 ∷ 121 ∷ [])

abbrev start : World
start = world (side []) (side [])

abbrev linked : World
linked =
    world (record { not_send = none; events = []; peer = some 6 })
      (record { not_send = some []; events = []; peer = some 5 })

start-Represents : Represents 1 2 5 6 start (apart [] [])
unfolding find
start-Represents = record {
  apart_ids = omega arith;
  main_not_zero = omega arith;
  sub_not_zero = omega arith;
  main_handle = refl;
  sub_handle = refl;
  main_end = refl;
  sub_end = refl;
}

-- `hello` was sent and the sides are not bound yet.
abbrev waiting : World
waiting = world (side (hello ∷ [])) (side [])

waiting-Represents : Represents 1 2 5 6 waiting (apart (hello ∷ []) [])
unfolding find
waiting-Represents = record {
  apart_ids = omega arith;
  main_not_zero = omega arith;
  sub_not_zero = omega arith;
  main_handle = refl;
  sub_handle = refl;
  main_end = refl;
  sub_end = refl;
}

linked-Represents : Represents 1 2 5 6 linked (bound [] [] [])
unfolding find
linked-Represents = record {
  apart_ids = omega arith;
  main_not_zero = omega arith;
  sub_not_zero = omega arith;
  main_handle = refl;
  sub_handle = refl;
  main_end = refl;
  sub_end = refl;
}

create_two :
    (create_uv_async 5 (record { objects = empty; handle_data = λ _. 0; sent = [] }) >>= λ (_, w).
    create_uv_async 6 w >>= λ (_, w'). some w'.objects)
    ≡ some start.objects
unfolding create_uv_async put empty insert
create_two = refl

step-Refines_example :
    (w : World) × (step 1 2 5 6 (main_sends hello) start ≡ some (none, w))
    × Represents 1 2 5 6 w (apart (hello ∷ []) [])
step-Refines_example = step-Refines 1 2 5 6 (main_sends hello) start (apart [] []) start-Represents

-- A message before the bind and one after it.
abbrev history : List Op
history = main_sends hello ∷ binds ∷ main_sends bye ∷ sub_takes ∷ sub_sends bye ∷ main_takes ∷ []

run_delivers_example :
    (a b : List EventData) × (w : World) × (l : Link) × (run 1 2 5 6 history start ≡ some (a, b, w))
    × Represents 1 2 5 6 w l
    × (hello ∷ bye ∷ [] ≡ a ++ to_sub l)
run_delivers_example = run_delivers 1 2 5 6 history start (apart [] []) start-Represents

push_overtakes_example :
    (w : World) × ((set_peers 5 6 waiting >>= push_event 1 bye >>= swap_not_send_peer 1) ≡ some w)
    × Represents 1 2 5 6 w (bound (bye ∷ hello ∷ []) [] [])
push_overtakes_example = push_overtakes 1 2 5 6 waiting (hello ∷ []) [] bye waiting-Represents

-- `_recv` is there for one call only.
abbrev once : List (List ℕ) → Bool
once [] = true
once (_ ∷ _) = false

abbrev three_waiting : RecvEventData
three_waiting = record { not_send = some []; events = hello ∷ bye ∷ hello ∷ []; peer = some 5 }

recv_other_thread_event-calls_example :
    (w : World) × (recv_other_thread_event once 4 6 (world (side []) three_waiting)
      ≡ some ((104 ∷ 105 ∷ []) ∷ [], true, w))
    × (load 2 w ≡ some (record three_waiting { events = hello ∷ [] }))
unfolding find
recv_other_thread_event-calls_example =
    recv_other_thread_event-calls once 6 three_waiting (world (side []) three_waiting)
      ((104 ∷ 105 ∷ []) ∷ (98 ∷ 121 ∷ []) ∷ (104 ∷ 105 ∷ []) ∷ []) (omega arith) (omega arith) refl

send_event-free_example :
    let freed = free_recv_event_from 6 linked in
    (send_event 6 hello freed ≡ freed) × (load 1 freed ≡ (if 2 == 1 then none else load 1 linked))
unfolding get find
send_event-free_example = send_event-free 6 1 hello linked _ refl
