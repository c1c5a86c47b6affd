-- ===== src/Life/Calling.antt =====
-- src/main.cc, a call of the main side on a thread with no step of the thread between its two halves.
use threadjs_lib.Base.{
  ℕ, ◌≡◌, ◌≢◌, ◌⊎◌, refl, sym, subst, ap, ◌∙◌, Bool, true, false, Option, none, some, arith,
  Bool-cases, inl, inr,
}
use threadjs_lib.IdContainer.{notfree_object, notfree, getid}
use threadjs_lib.Life.{
  Phase, ended, closing, leaving, is_deleted, is_closed, ReqData, Thread, next, fault, Call, stop,
  use_time, send, Main, resting, checked,
}
use threadjs_lib.Life.Calls.{check_id, call_step, dispatch_call, call_use_time, no_clock}
use threadjs_lib.Life.System.{Reach}
use threadjs_lib.Life.Inv.{IsValid, id_live, is_early, has_loop, ReqOk}
use threadjs_lib.Life.Keep.{Keeps}
use threadjs_lib.Life.Callers.{Inv-calls, call_stop-Keeps, call_send-Keeps}
use threadjs_lib.Life.Safety.{Created, reached}

-- _use_time asks a loop for its time, and so needs one.
abbrev pub IsTimely : Call → Thread → Type 0
IsTimely use_time s = has_loop s.phase ≡ true
IsTimely _ s = Unit {0}

live-is_early : (p : Phase) → id_live p ≡ true → is_early p ≡ true
live-is_early closing e = cc
live-is_early (leaving none) e = cc
live-is_early (ended code) e = cc
live-is_early p e = refl

-- A thread whose id is alive has its ReqData.
ReqOk-live :
    (p : Phase) (r : ReqData)
    → id_live p ≡ true
    → ReqOk p (some r)
    → has_loop p ≡ true
    → r.sub_loop ≡ true
ReqOk-live (ended code) r e h l = cc
ReqOk-live p r e h l = h.0 ∙ l

ReqOk-some : (p : Phase) → id_live p ≡ true → ReqOk p none → ⊥
ReqOk-some (ended code) e h = cc
ReqOk-some p e h = h

not_true : (b c : Bool) → (b ≡ true → c ≡ false) → c ≡ true → b ≡ false
not_true true c h e = cc (h refl)
not_true false c h e = refl

module _ (hm hs m : ℕ) (s : Thread) (h : IsValid hm hs m s) (alive : id_live s.phase ≡ true) where
  loop_there : is_deleted s.loop ≡ false
  loop_there = not_true (is_deleted s.loop) (id_live s.phase) h.loop_ok alive

  handle_there : is_deleted s.sub_handle ≡ false
  handle_there = not_true (is_deleted s.sub_handle) (id_live s.phase) h.sub_ok alive

  clock_there :
      (r : ReqData) → ReqOk s.phase (some r) → has_loop s.phase ≡ true → no_clock r s.loop ≡ false
  unfolding no_clock
  clock_there r ok l = rw (no_clock, ReqOk-live s.phase r alive ok l) (rw loop_there (ground arith))

  open_still : is_closed s.del_event ≡ false
  open_still = ap is_closed (h.early_ok (live-is_early s.phase alive))

  call_step-NoFault :
      (c : Call) (r : Option ReqData)
      → IsTimely c s
      → ReqOk s.phase r
      → call_step hs m (record s { main = checked c; req = r }) ≢ fault
  unfolding call_step dispatch_call call_use_time
  call_step-NoFault (send e) r timely ok faulted = subst (Keeps hm hs m) faulted (
      call_send-Keeps hm hs m e (record s { main = resting; req = r }) open_still handle_there
        (Inv-calls hm hs m s r resting s.times s.now s.world h ok h.table h.world_ok))
  call_step-NoFault c none timely ok faulted = ReqOk-some s.phase alive ok
  call_step-NoFault (stop b) (some r) timely ok faulted = subst (Keeps hm hs m) faulted (
      call_stop-Keeps hm hs m b r (record s { main = resting; req = some r }) refl loop_there
        handle_there
        (Inv-calls hm hs m s (some r) resting s.times s.now s.world h ok h.table h.world_ok))
  call_step-NoFault use_time (some r) timely ok faulted =
      cc (rw (call_use_time, clock_there r ok timely) at faulted)

-- Behind its check a call is over, or the id of the thread was alive.
abbrev pub Asked : Call → Thread → Type 0
Asked c s = (s.main ≡ resting) ⊎ ((s.main ≡ checked c) × (id_live s.phase ≡ true))

module _ (hm hs m : ℕ) where
  pub check_id-Asked :
      (c : Call) (s s' : Thread) → IsValid hm hs m s → check_id c s ≡ next s' → Asked c s'
  unfolding check_id notfree_object notfree getid
  check_id-Asked c s s' h e = from s.main e
    where
      from : (x : Main) → check_id c (record s { main = x }) ≡ next s' → Asked c s'
      from (checked d) e' = cc e'
      from resting e' = elim (Bool-cases (notfree_object s.object s.ids)) [
        | inr free ↦
            let same : record s { main = resting } ≡ s' = cc (rw free at e') in
            subst (Asked c) same (inl refl)
        | inl taken ↦
            let same : record s { main = checked c } ≡ s' = cc (rw taken at e') in
            subst (Asked c) same (inr (refl, sym h.id_ok ∙ (rw h.object_ok at taken)))
      ]

  pub Asked-NoFault :
      (c : Call) (s : Thread)
      → IsValid hm hs m s
      → Asked c s
      → IsTimely c s
      → call_step hs m s ≢ fault
  unfolding call_step
  Asked-NoFault c s h (inl over) timely =
      subst (λ x. call_step hs m (record s { main = x }) ≢ fault) (sym over) (λ f. cc f)
  Asked-NoFault c s h (inr (asked, alive)) timely =
      subst (λ x. call_step hs m (record s { main = x }) ≢ fault) (sym asked)
        (call_step-NoFault hm hs m s h alive c s.req timely h.req_ok)

module _ (hm hs m : ℕ) (s : Thread) (k : Created hm hs m s) (s' : Thread)
    (reach : Reach hm hs m s s') where
  -- While ids are below 2^32, a call of _stop, _send or _use_time that finds the id of the thread
  -- alive uses no memory that is not there, if the thread makes no step between the check and the
  -- work and, for _use_time, has its loop.
  pub call_step_safe :
      (c : Call) (s'' : Thread)
      → IsTimely c s'
      → check_id c s' ≡ next s''
      → call_step hs m s'' ≢ fault
  unfolding check_id notfree_object notfree getid
  call_step_safe c s'' timely e = from s'.main e
    where
      from :
          (x : Main) → check_id c (record s' { main = x }) ≡ next s'' → call_step hs m s'' ≢ fault
      from (checked d) e' = cc e'
      from resting e' = elim (Bool-cases (notfree_object s'.object s'.ids)) [
        | inr free ↦
            let same : record s' { main = resting } ≡ s'' = cc (rw free at e') in
            subst (λ x. call_step hs m x ≢ fault) same (unfold call_step in λ f. cc f)
        | inl taken ↦
            let h = reached hm hs m s k s' reach in
            let alive : id_live s'.phase ≡ true = sym h.id_ok ∙ (rw h.object_ok at taken) in
            let same : record s' { main = checked c } ≡ s'' = cc (rw taken at e') in
            subst (λ x. call_step hs m x ≢ fault) same
              (call_step-NoFault hm hs m s' h alive c s'.req timely h.req_ok)
      ]
