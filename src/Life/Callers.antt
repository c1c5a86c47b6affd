-- ===== src/Life/Callers.antt =====
-- src/main.cc, the calls of the main side on a thread, and what is true of the thread behind them.
use threadjs_lib.Base.{
  ℕ, ◌≡◌, refl, sym, subst, ◌∙◌, Bool, true, false, List, Option, none, some, Option-cases,
  Bool-cases, inl, inr, if◌then◌else◌,
}
use threadjs_lib.IdContainer.{notfree_object}
use threadjs_lib.ObjectMap.Handles
use threadjs_lib.Events.{EventData, World, uv_async_send, push_event}
use threadjs_lib.Life.{
  Phase, ended, ReqData, Thread, Call, stop, use_time, send, Main, resting, checked, Outcome, next,
  fault, refused, is_deleted, is_closed,
}
use threadjs_lib.Life.Calls.{
  check_id, no_clock, call_use_time, call_stop, call_send, dispatch_call, call_step,
}
use threadjs_lib.Life.Inv.{stage, ReqOk, WorldOk, IsValid}
use threadjs_lib.Life.Table.{push_event-TableOk}
use threadjs_lib.Life.Worlds.{push_event-main}
use threadjs_lib.Life.Statements.{wake-WorldOk, if-Keeps}
use threadjs_lib.Life.Effects.{OnNext, if-OnNext}
use threadjs_lib.Life.Keep.{Keeps}

-- What ReqData says of the two pointers is what is read of it.
ReqOk-same :
    (p : Phase) (r r' : ReqData)
    → r.sub_loop ≡ r'.sub_loop
    → r.sub_event ≡ r'.sub_event
    → ReqOk p (some r)
    → ReqOk p (some r')
ReqOk-same (ended c) r r' l e h = cc
ReqOk-same p r r' l e h = (sym l ∙ h.0, sym e ∙ h.1)

module _ (hm hs m : ℕ) where
  -- A fault aside, what comes next is valid.
  abbrev pub Leaves : Outcome → Type 0
  Leaves = OnNext (IsValid hm hs m)

  -- A call changes no more than this.
  pub Inv-calls :
      (s : Thread) (r : Option ReqData) (x : Main) (ts : List ℕ) (now : ℕ) (w : World)
      (h : IsValid hm hs m s)
      → ReqOk s.phase r
      → Handles.IsValid w.objects
      → (is_closed s.del_event ≡ false → WorldOk hm hs m (stage s.phase) s.sub_end h.queue w)
      → IsValid hm hs m (record s { req = r; main = x; times = ts; now = now; world = w })
  Inv-calls s r x ts now w h req table ok = record {
    queue = h.queue;
    req_ok = req;
    object_ok = h.object_ok;
    id_ok = h.id_ok;
    loop_ok = h.loop_ok;
    sub_ok = h.sub_ok;
    early_ok = h.early_ok;
    late_ok = h.late_ok;
    main_ok = h.main_ok;
    named = h.named;
    table = table;
    world_ok = ok;
    delivered = h.delivered;
    posted_ok = h.posted_ok;
  }

  pub check_id-Leaves : (c : Call) (s : Thread) → IsValid hm hs m s → Leaves (check_id c s)
  unfolding check_id
  check_id-Leaves c s h = main_side s.main
    where
      main_side :
          (x : Main)
          → Leaves (elim x [
            | checked c' ↦ refused
            | resting ↦
                if notfree_object s.object s.ids
                then next (record s { main = checked c })
                else next s
          ])
      main_side (checked c') = tt
      main_side resting = elim (Bool-cases (notfree_object s.object s.ids)) [
        | inl live' ↦
            rw live'
              (Inv-calls s s.req (checked c) s.times s.now s.world h h.req_ok h.table h.world_ok)
        | inr free ↦ rw free h
      ]

  stopped-IsValid :
      (r : ReqData) (s : Thread) (t : Bool) (w : World)
      → s.req ≡ some r
      → (h : IsValid hm hs m s) → Handles.IsValid w.objects
      → (is_closed s.del_event ≡ false → WorldOk hm hs m (stage s.phase) s.sub_end h.queue w)
      → IsValid hm hs m
          (record s { req = some (record r { running = false; terminated = t }); world = w })
  stopped-IsValid r s t w there h table ok =
      Inv-calls s _ s.main s.times s.now w h
        (ReqOk-same s.phase r (record r { running = false; terminated = t }) refl refl
          (subst (ReqOk s.phase) there h.req_ok))
        table ok

  pub call_stop-Keeps :
      (alive : Bool) (r : ReqData) (s : Thread)
      → s.req ≡ some r
      → is_deleted s.loop ≡ false
      → is_deleted s.sub_handle ≡ false
      → IsValid hm hs m s
      → Keeps hm hs m (call_stop hs m alive r s)
  unfolding call_stop
  call_stop-Keeps alive r s there loop handle h = rw (safe r.sub_loop) (
      if-Keeps hm hs m r.sub_event _ _
        (rw handle (
          stopped-IsValid r s _ (uv_async_send hs s.world) there h (unfold uv_async_send in h.table)
            (λ d.
              wake-WorldOk hm hs m (stage s.phase) s.sub_end h.queue hs s.world (h.world_ok d))))
        (stopped-IsValid r s _ s.world there h h.table h.world_ok))
    where
      safe : (b : Bool) → (if b then is_deleted s.loop else false) ≡ false
      safe true = loop
      safe false = refl

  pub call_send-Keeps :
      (e : EventData) (s : Thread)
      → is_closed s.del_event ≡ false
      → is_deleted s.sub_handle ≡ false
      → IsValid hm hs m s
      → Keeps hm hs m (call_send hs m e s)
  unfolding call_send
  call_send-Keeps e s open' handle h =
      let (w, pushed, ok) =
        push_event-main hm hs m (stage s.phase) s.sub_end e h.queue s.world (h.world_ok open') in
      rw handle (
        rw pushed (
          Inv-calls s s.req s.main s.times s.now w h h.req_ok
            (push_event-TableOk m e s.world w pushed h.table) (λ d. ok)))

  call_stop-Leaves :
      (alive : Bool) (r : ReqData) (s : Thread)
      → s.req ≡ some r
      → IsValid hm hs m s
      → Leaves (call_stop hs m alive r s)
  unfolding call_stop
  call_stop-Leaves alive r s there h =
      let t : Bool = if r.sub_loop then (if alive then true else r.terminated) else r.terminated in
      let s₁ : Thread = record s { req = some (record r { running = false; terminated = t }) } in
      let s₂ : Thread = record s₁ { world = uv_async_send hs s.world } in
      let woken : Outcome = if is_deleted s.sub_handle then fault else next s₂ in
      if-OnNext (IsValid hm hs m) (if r.sub_loop then is_deleted s.loop else false) fault
        (if r.sub_event then woken else next s₁) tt
        (if-OnNext (IsValid hm hs m) r.sub_event woken (next s₁)
          (if-OnNext (IsValid hm hs m) (is_deleted s.sub_handle) fault (next s₂) tt (
            stopped-IsValid r s t (uv_async_send hs s.world) there h
              (unfold uv_async_send in h.table)
              (λ d.
                wake-WorldOk hm hs m (stage s.phase) s.sub_end h.queue hs s.world (h.world_ok d))))
          (stopped-IsValid r s t s.world there h h.table h.world_ok))

  call_send-Leaves : (e : EventData) (s : Thread) → IsValid hm hs m s → Leaves (call_send hs m e s)
  unfolding call_send
  call_send-Leaves e s h = elim (Bool-cases (is_deleted s.sub_handle)) [
    | inl gone ↦ rw gone tt
    | inr there ↦ rw there (elim (Option-cases (push_event m e s.world)) [
      | inl lost ↦ rw lost tt
      | inr (w, pushed) ↦ rw pushed (
          Inv-calls s s.req s.main s.times s.now w h h.req_ok
            (push_event-TableOk m e s.world w pushed h.table)
            (λ d.
              let (w', pushed', ok) =
                push_event-main hm hs m (stage s.phase) s.sub_end e h.queue s.world
                  (h.world_ok d) in
              let same : w' ≡ w = cc in
              subst (WorldOk hm hs m (stage s.phase) s.sub_end h.queue) same ok))
    ])
  ]

  call_use_time-Leaves : (r : ReqData) (s : Thread) → IsValid hm hs m s → Leaves (call_use_time r s)
  unfolding call_use_time
  call_use_time-Leaves r s h = elim (Bool-cases (no_clock r s.loop)) [
    | inl blind ↦ rw blind tt
    | inr seen ↦ rw seen (Inv-calls s s.req s.main _ s.now s.world h h.req_ok h.table h.world_ok)
  ]

  pub call_step-Leaves : (s : Thread) → IsValid hm hs m s → Leaves (call_step hs m s)
  unfolding call_step dispatch_call
  call_step-Leaves s h = main_side s.main s.req h.req_ok
    where
      main_side :
          (x : Main) (r : Option ReqData)
          → ReqOk s.phase r
          → Leaves (call_step hs m (record s { main = x; req = r }))
      main_side resting r ok = tt
      main_side (checked (send e)) r ok =
          call_send-Leaves e (record s { main = resting; req = r })
            (Inv-calls s r resting s.times s.now s.world h ok h.table h.world_ok)
      main_side (checked (stop alive)) none ok = tt
      main_side (checked use_time) none ok = tt
      main_side (checked (stop alive)) (some r) ok =
          call_stop-Leaves alive r (record s { main = resting; req = some r }) refl
            (Inv-calls s (some r) resting s.times s.now s.world h ok h.table h.world_ok)
      main_side (checked use_time) (some r) ok =
          call_use_time-Leaves r (record s { main = resting; req = some r })
            (Inv-calls s (some r) resting s.times s.now s.world h ok h.table h.world_ok)
