-- ===== src/Life.antt =====
-- src/main.cc, do_script, with ReqData of src/data.h and src/data.cc: the life of a thread, from its
-- start to the release of what it holds. A step is one access to what the two threads share, or one
-- call of RecvEventData as a whole: create_uv_async with bind_peer_event, pushEvent and a round of the
-- receiving handler are one step each, though no lock holds over all of such a call (what goes wrong
-- when two of them overlap is in Events/Races.antt). Where
-- v8, libuv or a user's script decides how it goes on, the step has that as a `Choice`.
mod State
pub use State.*
pub mod Calls
pub mod System
pub mod Inv
pub mod Table
pub mod Worlds
pub mod Endpoints
pub mod Keep
pub mod Statements
pub mod Script
pub mod Release
pub mod Callers
pub mod Handlers
pub mod Creation
pub mod Safety
pub mod Calling
pub mod Effects
pub mod Ends
pub mod Races
pub mod Stopping
pub mod Times
pub mod Rounds
pub mod Liveness
mod Examples
use threadjs_lib.Base.{
  ℕ, ◌==◌, Bool, true, false, not, List, [], ◌∷◌, ◌++◌, Option, none, some, if◌then◌else◌,
}
use threadjs_lib.IdContainer.{IdContainer, Attr, freeid, notfree_object}
use threadjs_lib.ObjectMap.{ObjectMap}
use threadjs_lib.Events.{
  EventData, World, send_event, push_event, create_uv_async, bind_peer_event, has_event,
  uv_async_send, free_recv_event_from,
}
use threadjs_lib.Errors.{Caught, codes, v8_err_event, start_err_event, str_event, call_ret_bool}

-- TimeHandle: the two assignments of its constructor, and its destructor.
unfoldable pub set_begin : ℕ → ReqData → ReqData
set_begin now r = record r { begin_time = now }

unfoldable pub time_begin : ReqData → Thread → Thread
unfolding set_begin
time_begin r s = record s { req = some (record (set_begin s.now r) { end_time = 0 }) }

unfoldable pub time_end : ReqData → Thread → Thread
time_end r s = record s { req = some (record r { end_time = s.now }) }

-- ~ReqData.
unfoldable pub delete_req : Option ℕ → Thread → Outcome
delete_req c s = to (ended c) (record s { req = none; ids = freeid s.thread_id s.ids })

-- The message of free_sub_loop.
abbrev pub end_text : List ℕ
end_text = codes "{ \"name\": \"end\" }"

-- main_event and sub_event.
module _ (hm hs : ℕ) where
  -- sendEvent to main_event, whose `data` is read, and on to the phase `p`.
  unfoldable pub post : EventData → Phase → Thread → Outcome
  post e p s =
      if is_deleted s.main_handle
      then fault
      else next
          (record s { phase = p; world = send_event hm e s.world; posted = s.posted ++ e ∷ [] })

  unfoldable pub post_str : List ℕ → Phase → Thread → Outcome
  unfolding post str_event
  post_str t p s = elim (str_event t) [ none ↦ fault | some e ↦ post e p s ]

  -- j_send_event of the thread, through the pointer to its endpoint; the peer is main_event.
  unfoldable pub push : EventData → Thread → Outcome
  push e s =
      if notfree_object s.object s.ids
      then (if is_deleted s.main_handle
          then fault
          else or_fault (push_event s.sub_end e s.world)
              (λ w. next (record s { world = w; posted = s.posted ++ e ∷ [] })))
      else next s

  -- What the thread's JavaScript does while it runs: it sends, or calls that end in a sendEvent to
  -- main_event.
  unfoldable pub script : Choice → Thread → Outcome
  unfolding post push
  script (sends e) s = push e s
  script (posts e) s = post e s.phase s
  script c s = refused

  -- create_uv_async for the sub side and bind_peer_event.
  unfoldable pub bind : ReqData → Thread → Outcome
  bind r s = elim (create_uv_async hs s.world) [
    | none ↦ overflow
    | some (id, w) ↦ or_fault (bind_peer_event hm hs w) (λ w'. next (record s {
      phase = timing;
      req = some (record r { sub_event = true });
      world = w';
      sub_end = id;
      sub_handle = live;
    }))
  ]

  -- The call of uv_run that the body of the while loop begins with, its look at the messages of the
  -- main side, and the break.
  unfoldable pub after_poll : ReqData → Thread → Outcome
  unfolding time_end
  after_poll r s =
      let w : World = if has_event hm s.world then uv_async_send hm s.world else s.world in
      let s' : Thread = record s { world = w } in
      if is_deleted s.main_handle
      then fault
      else if r.terminated
      then to uninstalling (time_end r s')
      else to turning s'

  -- One statement of free_sub_loop; uv_run and uv_loop_close at its end are one.
  unfoldable pub free_sub_loop : Phase → Choice → Thread → Outcome
  unfolding post_str
  free_sub_loop ending goes_on s = post_str end_text freeing_id s
  free_sub_loop freeing_id goes_on s =
      to freeing_event (record s { ids = freeid s.thread_id s.ids })
  free_sub_loop freeing_event goes_on s =
      to signalling (record s { world = free_recv_event_from hs s.world })
  free_sub_loop signalling goes_on s =
      if is_closed s.del_event then fault else to closing (record s { del_event = signalled })
  free_sub_loop closing (closes busy) s =
      to (leaving none) (record s { sub_handle = deleted; loop = if busy then live else deleted })
  free_sub_loop _ c s = refused

  -- One statement of do_script. Where it can throw, the switch of its catch has a case.
  unfoldable pub dispatch : Phase → Choice → ReqData → Thread → Outcome
  unfolding post_str script bind after_poll free_sub_loop delete_req time_begin time_end
  dispatch starting goes_on r s = to compiling s
  dispatch starting throws r s = to (failing 1) s
  dispatch compiling (compiles none) r s = to opening s
  dispatch compiling (compiles (some c)) r s =
      post_str (v8_err_event (codes "CompilerError") c) (failing 2) s
  dispatch opening goes_on r s =
      to booting (record s { req = some (record r { sub_loop = true }); loop = live })
  dispatch booting goes_on r s = to binding s
  dispatch booting throws r s = if r.node then to (failing 10) s else refused
  dispatch binding goes_on r s = bind r s
  dispatch timing goes_on r s = to scripting (time_begin r s)
  dispatch scripting returns r s = to asking (time_end r s)
  dispatch scripting c r s = script c s
  dispatch asking (answers caught b) r s =
      to (if call_ret_bool caught b then uninstalling else heading) s
  dispatch asking c r s = script c s
  dispatch heading goes_on r s =
      if r.running then to polling (time_begin r s) else to uninstalling s
  dispatch polling returns r s = to polled s
  dispatch polling c r s = script c s
  dispatch polled goes_on r s = after_poll r s
  dispatch turning (answers caught b) r s =
      let s' : Thread = record s { sub_ref = not (call_ret_bool caught b) } in
      if call_ret_bool caught b then to draining s' else to heading (time_end r s')
  dispatch turning c r s = script c s
  dispatch draining (drained more) r s = to (if more then heading else uninstalling) (time_end r s)
  dispatch draining c r s = script c s
  dispatch uninstalling goes_on r s = to ending s
  dispatch uninstalling c r s = script c s
  dispatch ending c r s = free_sub_loop ending c s
  dispatch freeing_id c r s = free_sub_loop freeing_id c s
  dispatch freeing_event c r s = free_sub_loop freeing_event c s
  dispatch signalling c r s = free_sub_loop signalling c s
  dispatch closing c r s = free_sub_loop closing c s
  dispatch (failing n) goes_on r s = post_str (start_err_event n) (leaving (some n)) s
  dispatch (leaving c) goes_on r s = delete_req c s
  dispatch _ c r s = refused

  -- Every statement reads through the pointer to ReqData.
  unfoldable pub sub_step : Choice → Thread → Outcome
  unfolding dispatch
  sub_step c s = elim s.phase [
    | ended code ↦ refused
    | _ ↦ elim s.req [ none ↦ fault | some r ↦ dispatch s.phase c r s ]
  ]
