-- ===== src/Life/Examples.antt =====
-- Runs of a thread of src/main.cc.
use threadjs_lib.Base.{
  ◌≡◌, ◌≢◌, ◌⊎◌, refl, subst, true, false, List, [], ◌∷◌, ◌++◌, none, some, arith, ◌≤◌,
}
use threadjs_lib.IdContainer.{
  insert, contains, fresh, newid_object, newid, setid, notfree_object, notfree, getid,
}
use threadjs_lib.ObjectMap.{empty, put, get}
use threadjs_lib.StdMap
use threadjs_lib.Base.{decimal, if◌then◌else◌, ◌==◌}
use threadjs_lib.Errors.{start_err_event, codes, call_ret_bool, str_event}
use threadjs_lib.Events.{
  EventData, World, create_uv_async, push_event, next_event, load, bind_peer_event, set_peers,
  swap_not_send_peer,
}
use threadjs_lib.Life.{
  Thread, Outcome, next, fault, overflow, refused, Choice, goes_on, throws, returns, compiles,
  sends, answers, drained, closes, handled, quiet, end_text, is_deleted, Call, stop, sub_step,
}
use threadjs_lib.Life.Calls.{
  check_id, call_step, receive, recv_delete_event, dispatch_call, call_stop, create, started,
  new_req,
}
use threadjs_lib.Life.System.{Step, sub, checks, calls, receives, deletes, Reach, start, later}
use threadjs_lib.Life.Inv.{EndsIn}
use threadjs_lib.Life.Safety.{Created}
use threadjs_lib.Life.Ends.{ended_none, ended_some, received_after_delete}
use threadjs_lib.Life.Races.{call_step-leaving}
use threadjs_lib.Life.Stopping.{IsQuiet}
use threadjs_lib.Events.{recv_other_thread_event, get_data, before_nul}
use threadjs_lib.Base.{ℕ}
use threadjs_lib.Base.{◌-◌, ◌%◌, ◌^◌}
use threadjs_lib.Life.{ReqData, live, set_begin}
use threadjs_lib.Life.Times.{Answers, call_use_time-set_begin}
use threadjs_lib.Life.Rounds.{always, rounds, Deliver, recv_other_thread_event-rounds}
use threadjs_lib.Life.Liveness.{rests, states, HasEnded, Quietly-ends}

data Move : Type 0 where
  thread : Choice → Move
  check : Call → Move
  calls_now gets deletes_event : Move

abbrev move : Move → Thread → Outcome
move (thread c) s = sub_step 1 2 c s
move (check c) s = check_id c s
move calls_now s = call_step 2 1 s
move gets s = receive 1 s
move deletes_event s = recv_delete_event 1 s

run : List Move → Thread → Outcome
run [] s = next s
run (x ∷ xs) s = elim (move x s) [ next s' ↦ run xs s' | o ↦ o ]

move-Step : (x : Move) (s s' : Thread) → move x s ≡ next s' → Step 1 2 1 s s'
move-Step (thread c) s s' e = sub c e
move-Step (check c) s s' e = checks c e
move-Step calls_now s s' e = calls e
move-Step gets s s' e = receives e
move-Step deletes_event s s' e = deletes e

abbrev no_world : World
no_world = record { objects = empty; handle_data = λ k. 0; sent = [] }

-- The first thread of a process.
abbrev first : Thread
first =
    started (new_req false) 1 (setid 1) (newid fresh).1
      (record {
        objects = record {
          pool = (1, record { not_send = some []; events = []; peer = none }) ∷ [];
          object_id = 1;
        };
        handle_data = λ k. if 1 == k then 1 else 0;
        sent = [];
      })
      1 (record { pool = (1, 1) ∷ []; object_id = 1 })

create-first : create 1 false no_world empty fresh ≡ some (1, first)
unfolding create new_req create_uv_async put empty newid_object newid fresh insert started contains
    StdMap.insert
create-first = refl

abbrev first_made : Created 1 2 1 first
first_made = record {
  other = λ e. omega (arith, e);
  node = false;
  world = no_world;
  handles = empty;
  ids = fresh;
  table = unfold empty in tt;
  named = unfold empty in tt;
  room = unfold fresh in omega arith;
  made = create-first;
}

-- Where a list of moves leads from a state.
abbrev after : List Move → Thread → Thread
after xs s = elim (run xs s) [ next s' ↦ s' | _ ↦ s ]

run-Reach :
    (xs : List Move) (s t u : Thread) → Reach 1 2 1 s t → run xs t ≡ next u → Reach 1 2 1 s u
unfolding run
run-Reach [] s t u r e = subst (Reach 1 2 1 s) (cc e) r
run-Reach (x ∷ xs) s t u r e = go (λ t'. run-Reach xs s t' u) (move x t) refl e
  where
    go :
        (again : (t' : Thread) → Reach 1 2 1 s t' → run xs t' ≡ next u → Reach 1 2 1 s u)
        (o : Outcome)
        → move x t ≡ o
        → (elim o [ next s' ↦ run xs s' | o' ↦ o' ]) ≡ next u
        → Reach 1 2 1 s u
    go again (next t') m e' = again t' (later r (move-Step x t t' m)) e'
    go again fault m e' = cc e'
    go again overflow m e' = cc e'
    go again refused m e' = cc e'

abbrev IsNext : Outcome → Type 0
IsNext (next s) = Unit {0}
IsNext _ = ⊥

reaches : (xs : List Move) (s : Thread) → IsNext (run xs s) → Reach 1 2 1 s (after xs s)
reaches xs s ok = go (run xs s) refl ok
  where
    go : (o : Outcome) → run xs s ≡ o → IsNext o → Reach 1 2 1 s (elim o [ next s' ↦ s' | _ ↦ s ])
    go (next s') e ok' = run-Reach xs s s s' start e
    go fault e ok' = absurd ok'
    go overflow e ok' = absurd ok'
    go refused e ok' = absurd ok'

-- Up to the script, and from there to the end.
abbrev to_script : List Move
to_script =
    thread goes_on
    ∷ thread (compiles none)
    ∷ thread goes_on
    ∷ thread goes_on
    ∷ thread goes_on
    ∷ thread goes_on
    ∷ []

abbrev to_end_message : List Move
to_end_message =
    thread returns
    ∷ thread (answers none false)
    ∷ thread goes_on
    ∷ thread returns
    ∷ thread goes_on
    ∷ thread (answers none true)
    ∷ thread (drained false)
    ∷ thread goes_on
    ∷ thread goes_on
    ∷ []

abbrev to_end : List Move
to_end =
    thread goes_on ∷ thread goes_on ∷ thread goes_on ∷ thread (closes false) ∷ thread goes_on ∷ []

abbrev hello : EventData
hello = record { bytes = codes "hello" ++ 0 ∷ []; len = 6 }

abbrev scripting_thread : Thread
scripting_thread =
    after (to_script ++ thread (sends hello) ∷ gets ∷ thread (sends hello) ∷ []) first

abbrev ended_thread : Thread
ended_thread = after (to_script ++ to_end_message ++ to_end) first

abbrev failed_thread : Thread
failed_thread = after (thread throws ∷ thread goes_on ∷ thread goes_on ∷ []) first

abbrev late_thread : Thread
late_thread =
    after
      (to_script
        ++ to_end_message
        ++ (thread goes_on ∷ thread goes_on ∷ thread goes_on ∷ deletes_event ∷ []))
      first

scripting_runs :
    IsNext (run (to_script ++ thread (sends hello) ∷ gets ∷ thread (sends hello) ∷ []) first)
unfolding run sub_step started create_uv_async put bind_peer_event set_peers StdMap.find
    StdMap.insert StdMap.assign swap_not_send_peer get call_ret_bool new_req receive
    recv_delete_event check_id call_step dispatch_call call_stop notfree_object notfree getid newid
    fresh insert contains setid push_event next_event start_err_event decimal str_event
scripting_runs = tt

scripting_reached : Reach 1 2 1 first scripting_thread
scripting_reached =
    reaches (to_script ++ thread (sends hello) ∷ gets ∷ thread (sends hello) ∷ []) first
      scripting_runs

ended_runs : IsNext (run (to_script ++ to_end_message ++ to_end) first)
unfolding run sub_step started create_uv_async put bind_peer_event set_peers StdMap.find
    StdMap.insert StdMap.assign swap_not_send_peer get call_ret_bool new_req receive
    recv_delete_event check_id call_step dispatch_call call_stop notfree_object notfree getid newid
    fresh insert contains setid push_event next_event start_err_event decimal str_event
ended_runs = tt

ended_reached : Reach 1 2 1 first ended_thread
ended_reached = reaches (to_script ++ to_end_message ++ to_end) first ended_runs

failed_runs : IsNext (run (thread throws ∷ thread goes_on ∷ thread goes_on ∷ []) first)
unfolding run sub_step started create_uv_async put bind_peer_event set_peers StdMap.find
    StdMap.insert StdMap.assign swap_not_send_peer get call_ret_bool new_req receive
    recv_delete_event check_id call_step dispatch_call call_stop notfree_object notfree getid newid
    fresh insert contains setid push_event next_event start_err_event decimal str_event
failed_runs = tt

failed_reached : Reach 1 2 1 first failed_thread
failed_reached = reaches (thread throws ∷ thread goes_on ∷ thread goes_on ∷ []) first failed_runs

late_runs : IsNext (
    run
      (to_script
        ++ to_end_message
        ++ (thread goes_on ∷ thread goes_on ∷ thread goes_on ∷ deletes_event ∷ []))
      first)
unfolding run sub_step started create_uv_async put bind_peer_event set_peers StdMap.find
    StdMap.insert StdMap.assign swap_not_send_peer get call_ret_bool new_req receive
    recv_delete_event check_id call_step dispatch_call call_stop notfree_object notfree getid newid
    fresh insert contains setid push_event next_event start_err_event decimal str_event
late_runs = tt

late_reached : Reach 1 2 1 first late_thread
late_reached =
    reaches
      (to_script
        ++ to_end_message
        ++ (thread goes_on ∷ thread goes_on ∷ thread goes_on ∷ deletes_event ∷ []))
      first late_runs

-- The end message is lost, all the same.
late_thread_got : (late_thread.received ≡ []) × EndsIn end_text late_thread.posted
unfolding run sub_step started create_uv_async put bind_peer_event set_peers StdMap.find
    StdMap.insert StdMap.assign swap_not_send_peer get call_ret_bool new_req receive
    recv_delete_event check_id call_step dispatch_call call_stop notfree_object notfree getid newid
    fresh insert contains setid push_event next_event start_err_event decimal str_event
late_thread_got = (refl, ([], record { bytes = end_text ++ 0 ∷ []; len = 18 }, refl, refl))

ended_none_example :
    (ended_thread.req ≡ none)
    × (notfree_object ended_thread.object ended_thread.ids ≡ false)
    × EndsIn end_text ended_thread.posted
    × (ended_thread.del_event ≢ quiet)
unfolding run sub_step started create_uv_async put bind_peer_event set_peers StdMap.find
    StdMap.insert StdMap.assign swap_not_send_peer get call_ret_bool new_req receive
    recv_delete_event check_id call_step dispatch_call call_stop notfree_object notfree getid newid
    fresh insert contains setid push_event next_event start_err_event decimal str_event
ended_none_example = ended_none 1 2 1 first first_made ended_thread ended_reached refl

ended_some_example :
    (failed_thread.req ≡ none)
    × (notfree_object failed_thread.object failed_thread.ids ≡ false)
    × EndsIn (start_err_event 1) failed_thread.posted
    × (failed_thread.del_event ≡ quiet)
    × (is_deleted failed_thread.main_handle ≡ false)
    × (load 1 failed_thread.world ≢ none)
unfolding run sub_step started create_uv_async put bind_peer_event set_peers StdMap.find
    StdMap.insert StdMap.assign swap_not_send_peer get call_ret_bool new_req receive
    recv_delete_event check_id call_step dispatch_call call_stop notfree_object notfree getid newid
    fresh insert contains setid push_event next_event start_err_event decimal str_event
ended_some_example = ended_some 1 2 1 first first_made failed_thread failed_reached 1 refl

received_after_delete_example :
    ((after (thread (closes false) ∷ thread goes_on ∷ []) late_thread).received
      ≡ late_thread.received)
    × ((after (thread (closes false) ∷ thread goes_on ∷ []) late_thread).del_event ≡ handled)
unfolding run sub_step started create_uv_async put bind_peer_event set_peers StdMap.find
    StdMap.insert StdMap.assign swap_not_send_peer get call_ret_bool new_req receive
    recv_delete_event check_id call_step dispatch_call call_stop notfree_object notfree getid newid
    fresh insert contains setid push_event next_event start_err_event decimal str_event
received_after_delete_example =
    received_after_delete 1 2 1 first first_made late_thread late_reached
      (after (thread (closes false) ∷ thread goes_on ∷ []) late_thread) refl
      (reaches (thread (closes false) ∷ thread goes_on ∷ []) late_thread tt)

-- The main side finds the thread alive, and then the thread ends.
abbrev leaving_thread : Thread
leaving_thread =
    after
      (to_script
        ++ check (stop true) ∷ to_end_message
        ++ (thread goes_on ∷ thread goes_on ∷ thread goes_on ∷ thread (closes false) ∷ []))
      first

call_step-leaving_example : call_step 2 1 (after (thread goes_on ∷ []) leaving_thread) ≡ fault
unfolding run sub_step started create_uv_async put bind_peer_event set_peers StdMap.find
    StdMap.insert StdMap.assign swap_not_send_peer get call_ret_bool new_req receive
    recv_delete_event check_id call_step dispatch_call call_stop notfree_object notfree getid newid
    fresh insert contains setid push_event next_event start_err_event decimal str_event
call_step-leaving_example =
    call_step-leaving 1 2 1 leaving_thread (after (thread goes_on ∷ []) leaving_thread) (stop true)
      none refl tt refl refl

-- A thread that was stopped while its script ran.
abbrev stopped_thread : Thread
stopped_thread = after (to_script ++ check (stop true) ∷ calls_now ∷ []) first

stopped_runs : IsNext (run (to_script ++ check (stop true) ∷ calls_now ∷ []) first)
unfolding run sub_step started create_uv_async put bind_peer_event set_peers StdMap.find
    StdMap.insert StdMap.assign swap_not_send_peer get call_ret_bool new_req receive
    recv_delete_event check_id call_step dispatch_call call_stop notfree_object notfree getid newid
    fresh insert contains setid push_event next_event start_err_event decimal str_event
stopped_runs = tt

abbrev stopped_later : Thread
stopped_later = after (thread returns ∷ []) stopped_thread

Quietly-ends_example :
    (1 ≤ 20)
    × (HasEnded stopped_later.phase
        ⊎ ((c : Choice) × IsQuiet c
            × (sub_step 1 2 c stopped_later ≢ refused)
            × (sub_step 1 2 c stopped_later ≢ fault)))
unfolding run sub_step started create_uv_async put bind_peer_event set_peers StdMap.find
    StdMap.insert StdMap.assign swap_not_send_peer get call_ret_bool new_req receive
    recv_delete_event check_id call_step dispatch_call call_stop notfree_object notfree getid newid
    fresh insert contains setid push_event next_event start_err_event decimal str_event
Quietly-ends_example =
    Quietly-ends 1 2 1 first stopped_thread stopped_later 1 first_made
      (reaches (to_script ++ check (stop true) ∷ calls_now ∷ []) first stopped_runs) refl
      (states returns rests tt refl)

recv_other_thread_event-rounds_example :
    (texts : List (List ℕ)) × (es : List EventData) × (w' : World) × (recv_other_thread_event always
        2 1 scripting_thread.world
      ≡ some (texts, false, w'))
    × (rounds 1 2 scripting_thread
        ≡ next (record scripting_thread { world = w'; received = scripting_thread.received ++ es }))
    × Deliver es texts
unfolding run sub_step started create_uv_async put bind_peer_event set_peers StdMap.find
    StdMap.insert StdMap.assign swap_not_send_peer get call_ret_bool new_req receive
    recv_delete_event check_id call_step dispatch_call call_stop notfree_object notfree getid newid
    fresh insert contains setid push_event next_event start_err_event decimal str_event get_data
    before_nul
recv_other_thread_event-rounds_example =
    recv_other_thread_event-rounds 1 2 1 2 first scripting_thread
      (record { not_send = none; events = hello ∷ []; peer = some 2 }) first_made scripting_reached
      (λ e. cc e) refl ((codes "hello", refl), tt) (omega arith)

-- A turn of two milliseconds, and one that begins five later.
abbrev turned : ReqData
turned = record (new_req false) { running = true; sub_loop = true; begin_time = 10; end_time = 12 }

call_use_time-set_begin_example :
    Answers (record scripting_thread { now = 17; loop = live }) turned ((12 - 10) % 2 ^ 32)
    × Answers
        (record scripting_thread { now = 17; loop = live })
        (set_begin 17 turned)
        (2 ^ 32 - (17 - 12))
    × Answers
        (record scripting_thread { now = 17; loop = live })
        (record (set_begin 17 turned) { end_time = 0 })
        0
unfolding set_begin
call_use_time-set_begin_example =
    call_use_time-set_begin (record scripting_thread { now = 17; loop = live }) turned (omega arith)
      (omega arith) (omega arith) (omega arith) (omega arith) refl refl
