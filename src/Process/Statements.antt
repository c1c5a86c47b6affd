-- ===== src/Process/Statements.antt =====
-- src/main.cc, do_script: what a statement that changes what is shared leaves as it was.
use threadjs_lib.Base.{
  ℕ, ◌≤◌, ◌<◌, ◌≡◌, ◌≢◌, inl, inr, refl, sym, ◌∙◌, true, Option, none, some, arith, if◌then◌else◌,
  Bool-cases,
}
use threadjs_lib.IdContainer.{freeid}
use threadjs_lib.IdContainer.Lifetime.{contains-erase}
use threadjs_lib.Events.{World, has_event, free_recv_event_from, create_uv_async, bind_peer_event}
use threadjs_lib.Life.{
  Phase, binding, timing, polled, turning, uninstalling, freeing_event, signalling, closing, live,
  signalled, ReqData, Thread, goes_on, time_end, bind, after_poll, dispatch, sub_step, next,
  overflow, or_fault, to,
}
use threadjs_lib.Life.Inv.{Inv}
use threadjs_lib.Life.Keep.{not_deleted}
use threadjs_lib.Life.Effects.{OnNext, if-OnNext}
use threadjs_lib.Process.Frame.{
  Own-main, Own-sub, Frame, Frame-refl, Frame-trans, wake-Frame, free-Frame, SomeFrame,
}
use threadjs_lib.Process.Binding.{Made, create_uv_async-Made, bind_peer_event-SomeFrame}
use threadjs_lib.Process.Local.{Local, Local-world, early-Freed}

-- The thread frees its own id.
pub frees-Local :
    (hm hs m : ℕ) (s : Thread) (p : Phase) (r : Option ReqData)
    → Local hm hs m s (record s { phase = p; req = r; ids = freeid s.thread_id s.ids })
unfolding freeid
frees-Local hm hs m s p r = record {
  frame = Frame-refl hm hs m s.sub_end s.world;
  same_end = inl refl;
  same_id = refl;
  same_data = refl;
  same_handles = refl;
  same_next = refl;
  ids_kept = λ k n. ground (arith, n, contains-erase s.thread_id k s.ids.thread_id_pool);
  freed = λ q. q;
}

module _ (hm hs m : ℕ) where
  pub bind-Local :
      hm ≢ hs
      → (r : ReqData) (s : Thread) → Inv hm hs m binding (some r) s
      → OnNext (Local hm hs m s) (bind hm hs r (record s { phase = binding; req = some r }))
  unfolding bind
  bind-Local other r s h =
      made (create_uv_async hs s.world)
        (λ e. create_uv_async-Made hm hs m e hs s.world h.table (λ k n n' q. n' (sym q)))
    where
      bound :
          (id : ℕ) (w : World)
          → s.world.objects.object_id < id
          → id ≤ w.objects.object_id
          → Frame hm hs m id s.world w
          → (o : Option World) → SomeFrame hm hs m id w o
          → OnNext (Local hm hs m s) (
              or_fault o (λ w'. next (record s {
                phase = timing;
                req = some (record r { sub_event = true });
                world = w';
                sub_end = id;
                sub_handle = live;
              })))
      bound id w fresh le f none f' = tt
      bound id w fresh le f (some w') f' = record {
        frame = Frame-trans hm hs m id s.world w w' f f';
        same_end = inr (fresh, omega (arith, le, f'.counter));
        same_id = refl;
        same_data = refl;
        same_handles = refl;
        same_next = refl;
        ids_kept = λ k n. refl;
        freed = λ q. early-Freed hm hs m binding (some r) s w' h refl;
      }

      made :
          (o : Option (ℕ × World))
          → ((e : ℕ) → Made hm hs m e hs s.world o)
          → OnNext (Local hm hs m s) (elim o [
            | none ↦ overflow
            | some (id, w) ↦ or_fault (bind_peer_event hm hs w) (λ w'. next (record s {
              phase = timing;
              req = some (record r { sub_event = true });
              world = w';
              sub_end = id;
              sub_handle = live;
            }))
          ])
      made none k = tt
      made (some (id, w)) k =
          let (new, counter, here, elsewhere, f) = k id in
          let (there, open') = not_deleted hm hs m binding (some r) s refl h in
          let main : w.handle_data hm ≡ m =
            elsewhere hm (λ q. other (sym q)) ∙ (h.world_ok open').1.1 in
          bound id w (omega (arith, new)) (omega (arith, new, counter)) f (bind_peer_event hm hs w)
            (bind_peer_event-SomeFrame hm hs m id w (Own-main hm hs m id _ main)
              (Own-sub hm hs m id _ here))

  pub after_poll-Local :
      (r : ReqData) (s : Thread)
      → Inv hm hs m polled (some r) s
      → OnNext (Local hm hs m s) (after_poll hm hs r (record s { phase = polled; req = some r }))
  unfolding after_poll time_end
  after_poll-Local r s h =
      let (there, open') = not_deleted hm hs m polled (some r) s refl h in
      elim (Bool-cases (has_event hm s.world)) [
        | inl waits ↦ rw waits (rw there (broken _ (wake-Frame hm hs m s.sub_end hm s.world)))
        | inr quiet' ↦ rw quiet' (rw there (broken _ (Frame-refl hm hs m s.sub_end s.world)))
      ]
    where
      moved :
          (w : World) (p : Phase) (q : ReqData)
          → Frame hm hs m s.sub_end s.world w
          → Local hm hs m s (record s { phase = p; req = some q; world = w })
      moved w p q f =
          Local-world hm hs m s (record s { phase = p; req = some q; world = w }) refl f
            (λ z. early-Freed hm hs m polled (some r) s w h refl) refl (refl, refl, refl)

      broken :
          (w : World)
          → Frame hm hs m s.sub_end s.world w
          → OnNext (Local hm hs m s) (
              if r.terminated
              then to uninstalling
                  (time_end r (record s { phase = polled; req = some r; world = w }))
              else to turning (record s { phase = polled; req = some r; world = w }))
      broken w f = if-OnNext (Local hm hs m s) r.terminated _ _ (moved w _ _ f) (moved w _ _ f)

  pub freeing_event-Local :
      (r : ReqData) (s : Thread)
      → Inv hm hs m freeing_event (some r) s
      → Local hm hs m s
          (record s { phase = signalling; req = some r; world = free_recv_event_from hs s.world })
  freeing_event-Local r s h =
      let (there, open') = not_deleted hm hs m freeing_event (some r) s refl h in
      Local-world hm hs m s _ refl
        (free-Frame hm hs m s.sub_end hs s.world (λ k n n' q. n' (sym q))
          (Own-sub hm hs m s.sub_end _ ((h.world_ok open').2.sub_handle)))
        (λ z. early-Freed hm hs m freeing_event (some r) s (free_recv_event_from hs s.world) h refl)
        refl (refl, refl, refl)

  pub signalling-Local :
      (r : ReqData) (s : Thread)
      → Inv hm hs m signalling (some r) s
      → OnNext
          (Local hm hs m s)
          (sub_step hm hs goes_on (record s { phase = signalling; req = some r }))
  unfolding sub_step dispatch
  signalling-Local r s h =
      let (there, open') = not_deleted hm hs m signalling (some r) s refl h in
      rw open' (
        Local-world hm hs m s (record s { phase = closing; req = some r; del_event = signalled })
          refl (Frame-refl hm hs m s.sub_end s.world) (λ z q. cc) refl (refl, refl, refl))
