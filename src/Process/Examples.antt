-- ===== src/Process/Examples.antt =====
-- A run of two threads of src/main.cc in one process.
use threadjs_lib.Base.{
  ℕ, ◌<◌, ◌^◌, ◌≡◌, ◌≢◌, refl, true, false, List, [], ◌∷◌, ◌++◌, Option, none, some, arith, ltb,
  ltb→lt, Bool-cases, inl, inr, if◌then◌else◌, ◌==◌,
}
use threadjs_lib.IdContainer.{
  insert, contains, fresh, newid_object, newid, setid, notfree_object, notfree, getid,
}
use threadjs_lib.ObjectMap.{empty, put, get}
use threadjs_lib.StdMap
use threadjs_lib.Events.{
  EventData, create_uv_async, push_event, next_event, send_event, bind_peer_event, set_peers,
  swap_not_send_peer, store, uv_async_send,
}
use threadjs_lib.Life.{
  Thread, Outcome, next, fault, overflow, refused, Choice, goes_on, compiles, sends, Call, stop,
  sub_step,
}
use threadjs_lib.Life.Calls.{check_id, call_step, receive, create, started, new_req}
use threadjs_lib.Life.System
use threadjs_lib.Process.{
  Member, Process, New, turn, creates, Reach, begins, later, view, moved, share, join, no_threads,
}
use threadjs_lib.Process.Inv.{Unmoved, update_at}
use threadjs_lib.Process.Safety.{turn_safe, received_own, call_safe, turn_isolated}

data Act : Type 0 where
  does : Choice → Act
  asks : Call → Act
  gets : Act

abbrev act : Act → Member → Thread → Outcome
act (does c) a s = sub_step a.hm a.hs c s
act (asks c) a s = check_id c s
act gets a s = receive a.hm s

act-Step :
    (x : Act) (a : Member) (s s' : Thread) → act x a s ≡ next s' → System.Step a.hm a.hs a.m s s'
act-Step (does c) a s s' e = System.sub c e
act-Step (asks c) a s s' e = System.checks c e
act-Step gets a s s' e = System.receives e

-- The process after the actions of the members whose numbers stand with them; it stays where one
-- does not fit.
shared : Process → ℕ → Outcome → Process
shared p i (next s) = share p i (moved (p.members i) s)
shared p i o = p

acted : Process → ℕ → Act → Process
unfolding shared
acted p i x = if ltb i p.size then shared p i (act x (p.members i) (view p (p.members i))) else p

acted-Reach : (p q : Process) (i : ℕ) (x : Act) → Reach p q → Reach p (acted q i x)
unfolding acted
acted-Reach p q i x r = elim (Bool-cases (ltb i q.size)) [
  | inr out ↦ rw out r
  | inl lt ↦ rw lt (go (ltb→lt i q.size lt) (act x (q.members i) (view q (q.members i))) refl)
]
  where
    go :
        i < q.size
        → (o : Outcome) → act x (q.members i) (view q (q.members i)) ≡ o
        → Reach p (shared q i o)
    go lt (next s) e = later r (turn i lt (act-Step x (q.members i) (view q (q.members i)) s e))
    go lt fault e = r
    go lt overflow e = r
    go lt refused e = r

joined_with : Process → ℕ → ℕ → Option (ℕ × Thread) → Process
joined_with p hm hs none = p
joined_with p hm hs (some (m, s)) = join p (record { hm = hm; hs = hs; m = m; thread = s })

-- The process with one more thread.
joined : Process → ℕ → ℕ → Process
unfolding joined_with
joined p hm hs = joined_with p hm hs (create hm false p.world p.handles p.ids)

joined-Reach :
    (p q : Process) (hm hs : ℕ)
    → hm ≢ hs
    → New q hm
    → New q hs
    → q.ids.next < 2 ^ 32
    → Reach p q
    → Reach p (joined q hm hs)
unfolding joined
joined-Reach p q hm hs other new new' room r = go (create hm false q.world q.handles q.ids) refl
  where
    go :
        (o : Option (ℕ × Thread))
        → create hm false q.world q.handles q.ids ≡ o
        → Reach p (joined_with q hm hs o)
    go none e = r
    go (some (m, s)) e =
        later r
          (creates false (record { hm = hm; hs = hs; m = m; thread = s }) other new new' room e)

runs : List (ℕ × Act) → Process → Process
unfolding acted
runs [] p = p
runs ((i, x) ∷ xs) p = runs xs (acted p i x)

runs-Reach : (xs : List (ℕ × Act)) (p q : Process) → Reach p q → Reach p (runs xs q)
unfolding runs
runs-Reach [] p q r = r
runs-Reach ((i, x) ∷ xs) p q r = runs-Reach xs p (acted q i x) (acted-Reach p q i x r)

abbrev one : Process
one = joined no_threads 1 2

abbrev two : Process
two = joined one 3 4

one-New : (h : ℕ) → 2 < h → New one h
unfolding joined join share create new_req create_uv_async put empty newid_object newid fresh insert
    started contains StdMap.insert
one-New h lt = record {
  not_main = λ i below.
      update_at (λ (x : Member). x.hm ≢ h) no_threads.members 0 i (one.members 0)
        (λ _ q. omega arith) (λ _ q. omega arith);
  not_sub = λ i below.
      update_at (λ (x : Member). x.hs ≢ h) no_threads.members 0 i (one.members 0)
        (λ _ q. omega arith) (λ _ q. omega arith);
}

two_reached : Reach no_threads two
unfolding joined join share create new_req create_uv_async put empty newid_object newid fresh insert
    started contains StdMap.insert
two_reached =
    joined-Reach no_threads one 3 4 (λ e. omega arith) (one-New 3 (omega arith))
      (one-New 4 (omega arith)) (omega arith)
      (joined-Reach no_threads no_threads 1 2 (λ e. omega arith)
        (record { not_main = λ i lt. absurd (omega arith); not_sub = λ i lt. absurd (omega arith) })
        (record { not_main = λ i lt. absurd (omega arith); not_sub = λ i lt. absurd (omega arith) })
        (omega arith) begins)

hello : EventData
hello = record { bytes = 104 ∷ 0 ∷ []; len = 2 }

-- Both threads come to their scripts by turns, the second one sends, and its maker reads.
abbrev both : List (ℕ × Act)
both =
    (0, does goes_on)
    ∷ (1, does goes_on)
    ∷ (1, does (compiles none))
    ∷ (0, does (compiles none))
    ∷ (1, does goes_on)
    ∷ (1, does goes_on)
    ∷ (0, does goes_on)
    ∷ (1, does goes_on)
    ∷ (0, does goes_on)
    ∷ (0, does goes_on)
    ∷ (1, does goes_on)
    ∷ (1, does (sends hello))
    ∷ (1, gets)
    ∷ (0, does goes_on)
    ∷ (0, does (sends hello))
    ∷ []

abbrev scripting_both : Process
scripting_both = runs both two

scripting_both_reached : Reach no_threads scripting_both
scripting_both_reached = runs-Reach both no_threads two two_reached

scripting_both_got :
    ((scripting_both.members 1).thread.received ≡ hello ∷ [])
    × ((scripting_both.members 0).thread.received ≡ [])
    × ((scripting_both.members 0).thread.posted ≡ hello ∷ [])
unfolding runs acted shared joined joined_with join share create new_req create_uv_async put empty
    newid_object newid fresh insert started contains StdMap.insert StdMap.find StdMap.assign
    sub_step bind_peer_event set_peers swap_not_send_peer get push_event send_event next_event store
    uv_async_send receive check_id notfree_object notfree getid setid
scripting_both_got = (refl, refl, refl)

both_there : scripting_both.size ≡ 2
unfolding runs acted shared joined joined_with join share create new_req create_uv_async put empty
    newid_object newid fresh insert started contains StdMap.insert StdMap.find StdMap.assign
    sub_step bind_peer_event set_peers swap_not_send_peer get push_event send_event next_event store
    uv_async_send receive check_id notfree_object notfree getid setid
both_there = refl

below_both : (i : ℕ) → i < 2 → i < scripting_both.size
below_both i lt = omega (arith, lt, both_there)

turn_safe_example :
    sub_step
      ((scripting_both.members 1).hm)
      ((scripting_both.members 1).hs)
      (sends hello)
      (view scripting_both (scripting_both.members 1))
    ≢ fault
turn_safe_example =
    turn_safe scripting_both scripting_both_reached 1 (below_both 1 (omega arith)) (sends hello)

received_own_example :
    (q : List EventData) × ((scripting_both.members 1).thread.received ++ q
      ≡ (scripting_both.members 1).thread.posted)
received_own_example =
    received_own scripting_both scripting_both_reached 1 (below_both 1 (omega arith))

abbrev IsNext : Outcome → Type 0
IsNext (next s) = Unit {0}
IsNext _ = ⊥

next_of : Outcome → Thread → Thread
next_of (next s) t = s
next_of o t = t

next_of-next : (o : Outcome) (t : Thread) → IsNext o → o ≡ next (next_of o t)
unfolding next_of
next_of-next (next s) t h = refl
next_of-next fault t h = absurd h
next_of-next overflow t h = absurd h
next_of-next refused t h = absurd h

-- The first thread sends once more.
sends_again : Outcome
sends_again =
    sub_step ((scripting_both.members 0).hm) ((scripting_both.members 0).hs) (sends hello)
      (view scripting_both (scripting_both.members 0))

sends_again_runs : IsNext sends_again
unfolding runs acted shared joined joined_with join share create new_req create_uv_async put empty
    newid_object newid fresh insert started contains StdMap.insert StdMap.find StdMap.assign
    sub_step bind_peer_event set_peers swap_not_send_peer get push_event send_event next_event store
    uv_async_send receive check_id notfree_object notfree getid setid sends_again
sends_again_runs = tt

sent_again : Thread
sent_again = next_of sends_again (view scripting_both (scripting_both.members 0))

turn_isolated_example :
    Unmoved scripting_both
      (share scripting_both 0 (moved (scripting_both.members 0) sent_again))
      (scripting_both.members 1)
unfolding sent_again sends_again
turn_isolated_example =
    turn_isolated scripting_both scripting_both_reached 1 (below_both 1 (omega arith)) 0 sent_again
      (below_both 0 (omega arith)) (λ e. omega arith)
      (System.sub (sends hello) (
        next_of-next sends_again (view scripting_both (scripting_both.members 0)) sends_again_runs))

-- The maker of the second thread asks for it to stop, and before it goes on the first one sends.
asks_stop : Outcome
asks_stop = check_id (stop true) (view scripting_both (scripting_both.members 1))

asks_stop_runs : IsNext asks_stop
unfolding runs acted shared joined joined_with join share create new_req create_uv_async put empty
    newid_object newid fresh insert started contains StdMap.insert StdMap.find StdMap.assign
    sub_step bind_peer_event set_peers swap_not_send_peer get push_event send_event next_event store
    uv_async_send receive check_id notfree_object notfree getid setid asks_stop
asks_stop_runs = tt

asked : Thread
asked = next_of asks_stop (view scripting_both (scripting_both.members 1))

abbrev asked_process : Process
asked_process = share scripting_both 1 (moved (scripting_both.members 1) asked)

other_kept :
    (p : Process) (i j : ℕ) (x : Act) → (i == j) ≡ false → (acted p i x).members j ≡ p.members j
unfolding acted share
other_kept p i j x n = elim (Bool-cases (ltb i p.size)) [
  | inr out ↦ rw out refl
  | inl lt ↦ rw lt (go (act x (p.members i) (view p (p.members i))))
]
  where
    go : (o : Outcome) → (shared p i o).members j ≡ p.members j
    go (next s) = rw n refl
    go fault = refl
    go overflow = refl
    go refused = refl

abbrev sent_between : Process
sent_between = acted asked_process 0 (does (sends hello))

call_safe_example :
    call_step
      ((sent_between.members 1).hs)
      ((sent_between.members 1).m)
      (view sent_between (sent_between.members 1))
    ≢ fault
unfolding asked asks_stop share
call_safe_example =
    call_safe scripting_both scripting_both_reached 1 (below_both 1 (omega arith)) (stop true) asked
      sent_between
      (next_of-next asks_stop (view scripting_both (scripting_both.members 1)) asks_stop_runs)
      (acted-Reach asked_process asked_process 0 (does (sends hello)) begins)
      (other_kept asked_process 0 1 (does (sends hello)) refl) tt
