-- ===== src/Life/Calls.antt =====
-- src/main.cc, j_create, j_stop, j_use_time and j_send_event on the main side, with usedTime of
-- src/data.h, and the two handlers of the main loop.
use threadjs_lib.Base.{
  ℕ, ◌+◌, ◌-◌, ◌%◌, ◌^◌, ltb, Bool, true, false, [], ◌∷◌, ◌++◌, Option, none, some, if◌then◌else◌,
  ◌>>=◌,
}
use threadjs_lib.IdContainer.{Attr, IdContainer, newid_object, notfree_object}
use threadjs_lib.ObjectMap.{ObjectMap, put, get}
use threadjs_lib.Events.{
  EventData, World, push_event, uv_async_send, create_uv_async, next_event, free_recv_event_from,
}
use threadjs_lib.Life.{
  starting, Memory, absent, live, deleted, quiet, signalled, handled, ReqData, Call, stop, use_time,
  send, resting, checked, Thread, Outcome, next, fault, refused, or_fault, is_deleted,
}

-- The first half of a call: RET_OBJ_FUNCTION_INIT. Where the id is free the call ends by an error
-- event in JavaScript.
unfoldable pub check_id : Call → Thread → Outcome
check_id c s = elim s.main [
  | checked c' ↦ refused
  | resting ↦ if notfree_object s.object s.ids then next (record s { main = checked c }) else next s
]

-- usedTime, on 64 bits; the loop's time is asked for only while a script runs, and then `sub_loop`
-- is read.
unfoldable pub used_time : ℕ → ReqData → ℕ
used_time now r =
    if ltb 0 r.end_time
    then (r.end_time + 2 ^ 64 - r.begin_time) % 2 ^ 64
    else (now + 2 ^ 64 - r.begin_time) % 2 ^ 64

-- Whether usedTime goes through a pointer to a loop that is not there.
unfoldable pub no_clock : ReqData → Memory → Bool
no_clock r loop = if ltb 0 r.end_time then false else if r.sub_loop then is_deleted loop else true

-- j_use_time; _use_time returns a uint32.
unfoldable pub call_use_time : ReqData → Thread → Outcome
unfolding used_time no_clock
call_use_time r s =
    if no_clock r s.loop
    then fault
    else next (record s { times = s.times ++ (used_time s.now r % 2 ^ 32) ∷ [] })

module _ (hs m : ℕ) where
  -- j_stop; `alive` is what uv_loop_alive says.
  unfoldable pub call_stop : Bool → ReqData → Thread → Outcome
  call_stop alive r s =
      let r' : ReqData = record r {
        running = false;
        terminated = if r.sub_loop then (if alive then true else r.terminated) else r.terminated;
      } in
      if (if r.sub_loop then is_deleted s.loop else false)
      then fault
      else if r.sub_event
      then (if is_deleted s.sub_handle
          then fault
          else next (record s { req = some r'; world = uv_async_send hs s.world }))
      else next (record s { req = some r' })

  -- pushEvent through the pointer to the main endpoint, which reads the handle of its peer.
  unfoldable pub call_send : EventData → Thread → Outcome
  call_send e s =
      if is_deleted s.sub_handle
      then fault
      else or_fault (push_event m e s.world) (λ w. next (record s { world = w }))

  -- The second half of a call.
  unfoldable pub dispatch_call : Call → ReqData → Thread → Outcome
  unfolding call_stop call_use_time call_send
  dispatch_call (stop alive) r s = call_stop alive r s
  dispatch_call use_time r s = call_use_time r s
  dispatch_call (send e) r s = call_send e s

  -- It goes through the pointer to ReqData, j_send_event through that to the endpoint only.
  unfoldable pub call_step : Thread → Outcome
  unfolding dispatch_call call_send
  call_step s =
      let s' : Thread = record s { main = resting } in
      elim s.main [
        | resting ↦ refused
        | checked (send e) ↦ call_send e s'
        | checked c ↦ elim s.req [ none ↦ fault | some r ↦ dispatch_call c r s' ]
      ]

-- The constructor of ReqData, and what j_create gives it.
unfoldable pub new_req : Bool → ReqData
new_req node = record {
  node = node;
  running = true;
  terminated = false;
  sub_loop = false;
  sub_event = false;
  begin_time = 0;
  end_time = 0;
}

-- A thread at the start of do_script.
unfoldable pub started : ReqData → ℕ → Attr → IdContainer → World → ℕ → ObjectMap ℕ → Thread
started r id object ids w del_data handles = record {
  phase = starting;
  req = some r;
  thread_id = id;
  object = object;
  ids = ids;
  world = w;
  sub_end = 0;
  loop = absent;
  sub_handle = absent;
  sub_ref = true;
  main_handle = live;
  del_event = quiet;
  del_data = del_data;
  handles = handles;
  main = resting;
  now = 0;
  posted = [];
  received = [];
  times = [];
}

-- A round of recv_other_thread_event for main_event, and recv_delete_event.
module _ (hm : ℕ) where
  unfoldable pub receive : Thread → Outcome
  receive s =
      if is_deleted s.main_handle
      then refused
      else elim (get (s.world.handle_data hm) s.world.objects) [
        | none ↦ next s
        | some _ ↦ elim (next_event (s.world.handle_data hm) s.world) [
          | none ↦ fault
          | some (none, w) ↦ next s
          | some (some e, w) ↦ next (record s { world = w; received = s.received ++ e ∷ [] })
        ]
      ]

  unfoldable pub recv_delete_event : Thread → Outcome
  recv_delete_event s = elim s.del_event [
    | signalled ↦ elim (get s.del_data s.handles) [
      | none ↦ next (record s { del_event = handled })
      | some h ↦ next (record s {
        main_handle = deleted;
        del_event = handled;
        world = free_recv_event_from h s.world;
      })
    ]
    | _ ↦ refused
  ]

  -- j_create: the thread that uv_thread_create starts, and the pointer to the main endpoint. `none`
  -- is an overflow of the counter of the object table.
  unfoldable pub create : Bool → World → ObjectMap ℕ → IdContainer → Option (ℕ × Thread)
  create node w handles ids = create_uv_async hm w >>= λ (m, w').
      put (some hm) handles >>= λ (del_data, handles').
      let (id, object, ids') = newid_object ids in
      some (m, started (new_req node) id object ids' w' del_data handles')
