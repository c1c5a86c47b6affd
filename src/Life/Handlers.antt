-- ===== src/Life/Handlers.antt =====
-- src/main.cc, the handlers of main_event and del_event, and what is true of a thread behind them.
use threadjs_lib.Base.{
  ℕ, ◌≡◌, refl, sym, ap, ◌∙◌, [], ◌∷◌, ◌++◌, Option, none, some, Option-cases, Bool-cases, inl, inr,
  append_assoc,
}
use threadjs_lib.ObjectMap.{get}
use threadjs_lib.ObjectMap.Handles
use threadjs_lib.Events.{EventData, World, next_event}
use threadjs_lib.Life.{Signal, quiet, signalled, handled, Thread, Outcome, next, is_deleted}
use threadjs_lib.Life.Calls.{receive, recv_delete_event}
use threadjs_lib.Life.Inv.{stage, IsValid}
use threadjs_lib.Life.Table.{next_event-TableOk, free-TableOk}
use threadjs_lib.Life.Worlds.{next_event-WorldOk, Took}
use threadjs_lib.Life.Callers.{Leaves}

module _ (hm hs m : ℕ) where
  -- A message that the main side takes is no longer in the queue.
  Took-IsValid :
      (s : Thread) (o : Option EventData) (w : World) (h : IsValid hm hs m s)
      → Handles.IsValid w.objects
      → Took hm hs m (stage s.phase) s.sub_end h.queue (o, w)
      → Leaves hm hs m (
          elim o as (λ x. World → Outcome) [
            | none ↦ λ w'. next s
            | some e ↦ λ w'. next (record s { world = w'; received = s.received ++ e ∷ [] })
          ]
            w)
  Took-IsValid s none w h table took = h
  Took-IsValid s (some e) w h table (q, ok, split) = record {
    queue = q;
    req_ok = h.req_ok;
    object_ok = h.object_ok;
    id_ok = h.id_ok;
    loop_ok = h.loop_ok;
    sub_ok = h.sub_ok;
    early_ok = h.early_ok;
    late_ok = h.late_ok;
    main_ok = h.main_ok;
    named = h.named;
    table = table;
    world_ok = λ d. ok;
    delivered =
        append_assoc s.received (e ∷ []) q ∙ ap (λ es. s.received ++ es) (sym split) ∙ h.delivered;
    posted_ok = h.posted_ok;
  }

  pub receive-Leaves : (s : Thread) → IsValid hm hs m s → Leaves hm hs m (receive hm s)
  unfolding receive
  receive-Leaves s h = elim (Bool-cases (is_deleted s.main_handle)) [
    | inl gone ↦ rw (receive, gone) tt
    | inr there ↦
        rw (receive, there)
          (elim (Option-cases (get (s.world.handle_data hm) s.world.objects)) [
            | inl none' ↦ rw none' h
            | inr (r, got) ↦
                rw got (elim (Option-cases (next_event (s.world.handle_data hm) s.world)) [
                  | inl lost ↦ rw lost tt
                  | inr ((o, w), taken) ↦ rw taken (
                      Took-IsValid s o w h (next_event-TableOk _ o s.world w taken h.table) (
                        next_event-WorldOk hm hs m (stage s.phase) s.sub_end o h.queue s.world w
                          (h.world_ok (sym h.main_ok ∙ there)) taken))
                ])
          ])
  ]

  pub recv_delete_event-Leaves :
      (s : Thread) → IsValid hm hs m s → Leaves hm hs m (recv_delete_event hm s)
  unfolding recv_delete_event
  recv_delete_event-Leaves s h = signal s.del_event refl
    where
      signal :
          (d : Signal)
          → s.del_event ≡ d
          → Leaves hm hs m (recv_delete_event hm (record s { del_event = d }))
      signal quiet e = tt
      signal handled e = tt
      signal signalled e =
          rw (recv_delete_event, h.named)
            (record {
              queue = h.queue;
              req_ok = h.req_ok;
              object_ok = h.object_ok;
              id_ok = h.id_ok;
              loop_ok = h.loop_ok;
              sub_ok = h.sub_ok;
              early_ok = λ d. cc (h.early_ok d);
              late_ok = λ d d'. cc;
              main_ok = refl;
              named = h.named;
              table = free-TableOk hm s.world h.table;
              world_ok = λ d. cc;
              delivered = h.delivered;
              posted_ok = h.posted_ok;
            })
