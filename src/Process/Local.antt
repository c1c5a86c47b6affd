-- ===== src/Process/Local.antt =====
-- src/main.cc: what the steps of one thread, and of its maker for it, leave as it was.
use threadjs_lib.Base.{
  ℕ, ◌≤◌, ◌<◌, ◌≡◌, ◌≢◌, ◌⊎◌, inl, inr, refl, sym, subst, ap, Bool, true, List, [], ◌∷◌, ◌++◌,
  Option, none, some, Option-cases,
}
use threadjs_lib.IdContainer.{IdContainer, contains, notfree_object}
use threadjs_lib.Events.{EventData, RecvEventData, World, load, push_event, send_event}
use threadjs_lib.Errors.{str_event}
use threadjs_lib.Life.{
  Phase, Memory, ReqData, Thread, next, or_fault, Choice, sends, posts, is_closed, post, post_str,
  push, script,
}
use threadjs_lib.Life.Inv.{Stage, single, paired, alone, stage, is_early, WorldOk, Inv}
use threadjs_lib.Life.Keep.{not_deleted}
use threadjs_lib.Life.Effects.{OnNext, if-OnNext}
use threadjs_lib.Process.Frame.{
  Own, Own-zero, Own-main, Own-sub, Frame, Frame-refl, send_event-Frame, push_event-SomeFrame,
  SomeFrame, PeerOwn,
}

module _ (hm hs m : ℕ) where
  -- The endpoint of the main side is gone once its handle is.
  abbrev pub Freed : Thread → Type 0
  Freed s = is_closed s.del_event ≡ true → load m s.world ≡ none

  -- From `s` to `s'`: the world but for the thread's own part of it, the ids but for its own, and
  -- what was fixed when the thread was made.
  pub record Local (s s' : Thread) : Type 0 where
    pub frame : Frame hm hs m s'.sub_end s.world s'.world
    pub same_end :
        (s'.sub_end ≡ s.sub_end)
        ⊎ ((s.world.objects.object_id < s'.sub_end) × (s'.sub_end ≤ s'.world.objects.object_id))
    pub same_id : s'.thread_id ≡ s.thread_id
    pub same_data : s'.del_data ≡ s.del_data
    pub same_handles : s'.handles ≡ s.handles
    pub same_next : s'.ids.next ≡ s.ids.next
    pub ids_kept :
        (k : ℕ)
        → s.thread_id ≢ k
        → contains k s'.ids.thread_id_pool ≡ contains k s.ids.thread_id_pool
    pub freed : Freed s → Freed s'

  -- Nothing of that is touched, but the world.
  pub Local-world :
      (s s' : Thread)
      → s'.ids ≡ s.ids
      → Frame hm hs m s.sub_end s.world s'.world
      → (Freed s → Freed s')
      → (s'.sub_end ≡ s.sub_end)
      → (s'.thread_id ≡ s.thread_id) × (s'.del_data ≡ s.del_data) × (s'.handles ≡ s.handles)
      → Local s s'
  Local-world s s' ids frame gone ends (id, named, handles) = record {
    frame = subst (λ e. Frame hm hs m e s.world s'.world) (sym ends) frame;
    same_end = inl ends;
    same_id = id;
    same_data = named;
    same_handles = handles;
    same_next = ap (λ (p : IdContainer). p.next) ids;
    ids_kept = λ k n. ap (λ (p : IdContainer). contains k p.thread_id_pool) ids;
    freed = gone;
  }

  pub still :
      (s : Thread) (p : Phase) (r : Option ReqData) (b : Bool) (l : Memory)
      → Local s (record s { phase = p; req = r; sub_ref = b; loop = l })
  still s p r b l =
      Local-world s _ refl (Frame-refl hm hs m s.sub_end s.world) (λ q. q) refl (refl, refl, refl)

  -- While the main endpoint is there.
  pub main_handle :
      (st : Stage) (e : ℕ) (q : List EventData) (w : World)
      → WorldOk hm hs m st e q w
      → (m ≢ 0) × (w.handle_data hm ≡ m)
  main_handle single e q w (p, h) = (h.0, h.1)
  main_handle paired e q w (a, u, h) = (h.main_not_zero, h.main_handle)
  main_handle alone e q w (h, gone) = (h.0, h.1)

  pub handled-Own :
      (st : Stage) (e : ℕ) (q : List EventData) (w : World)
      → WorldOk hm hs m st e q w
      → Own hm hs m e (w.handle_data hm)
  handled-Own st e q w h = Own-main hm hs m e _ (main_handle st e q w h).1

  -- The peer of either endpoint is the handle of the other.
  peer_is :
      (i h : ℕ) (w : World) (r r' : RecvEventData)
      → load i w ≡ some r
      → load i w ≡ some r'
      → r.peer ≡ some h
      → r'.peer ≡ some h
  peer_is i h w r r' a b c =
      let same : r ≡ r' = cc in subst (λ (x : RecvEventData). x.peer ≡ some h) same c

  pub main-PeerOwn :
      (st : Stage) (e : ℕ) (q : List EventData) (w : World)
      → WorldOk hm hs m st e q w
      → PeerOwn hm hs m e m w
  main-PeerOwn single e q w (p, h) r k found peer = cc (peer_is m k w r _ found h.2 peer)
  main-PeerOwn paired e q w (a, u, h) r k found peer =
      let same : hs ≡ k = cc (peer_is m k w r _ found h.main_end peer) in
      subst (λ x. Own hm hs m e (w.handle_data x)) same (Own-sub hm hs m e _ h.sub_handle)
  main-PeerOwn alone e q w (h, gone) r k found peer =
      let same : hs ≡ k = cc (peer_is m k w r _ found h.2 peer) in
      subst (λ x. Own hm hs m e (w.handle_data x)) same (Own-zero hm hs m e _ gone)

  sub-PeerOwn :
      (e : ℕ) (q : List EventData) (w : World)
      → WorldOk hm hs m paired e q w
      → PeerOwn hm hs m e e w
  sub-PeerOwn e q w (a, u, h) r k found peer =
      let same : hm ≡ k = cc (peer_is e k w r _ found h.sub_end peer) in
      subst (λ x. Own hm hs m e (w.handle_data x)) same (Own-main hm hs m e _ h.main_handle)

  -- Before the thread signals del_event what `Freed` says is void.
  pub early-Freed :
      (p : Phase) (r : Option ReqData) (s : Thread) (w : World)
      → Inv hm hs m p r s
      → is_early p ≡ true
      → is_closed s.del_event ≡ true
      → load m w ≡ none
  early-Freed p r s w h early closed = cc ((not_deleted hm hs m p r s early h).1)

  post-Local :
      (p p' : Phase) (r : Option ReqData) (s : Thread) (f : Phase) (x : EventData)
      → is_early p ≡ true
      → Inv hm hs m p r s
      → OnNext (Local s) (post hm hs x p' (record s { phase = f; req = r }))
  unfolding post
  post-Local p p' r s f x early h =
      let (there, open') = not_deleted hm hs m p r s early h in
      rw there (
        Local-world s
          (record s {
            phase = p';
            req = r;
            world = send_event hm x s.world;
            posted = s.posted ++ x ∷ [];
          })
          refl
          (send_event-Frame hm hs m s.sub_end hm x s.world
            (handled-Own (stage p) s.sub_end h.queue s.world (h.world_ok open')))
          (λ q. early-Freed p r s (send_event hm x s.world) h early) refl (refl, refl, refl))

  pub post_str-Local :
      (p p' : Phase) (r : Option ReqData) (s : Thread) (f : Phase) (t : List ℕ)
      → is_early p ≡ true
      → Inv hm hs m p r s
      → OnNext (Local s) (post_str hm hs t p' (record s { phase = f; req = r }))
  unfolding post_str
  post_str-Local p p' r s f t early h = elim (Option-cases (str_event t)) [
    | inl lost ↦ rw (post_str, lost) tt
    | inr (x, made) ↦ rw (post_str, made) (post-Local p p' r s f x early h)
  ]

  pub script-Local :
      (p : Phase) (r : Option ReqData) (c : Choice) (s : Thread)
      → is_early p ≡ true
      → stage p ≡ paired
      → Inv hm hs m p r s
      → OnNext (Local s) (script hm hs c (record s { phase = p; req = r }))
  unfolding script push
  script-Local p r (sends x) s early same h =
      let (there, open') = not_deleted hm hs m p r s early h in
      let ok : WorldOk hm hs m paired s.sub_end h.queue s.world =
        subst (λ st. WorldOk hm hs m st s.sub_end h.queue s.world) same (h.world_ok open') in
      if-OnNext (Local s) (notfree_object s.object s.ids) _ _
        (rw there (
          pushed (push_event s.sub_end x s.world) (
            push_event-SomeFrame hm hs m s.sub_end s.sub_end x s.world
              (Own-sub hm hs m s.sub_end s.sub_end refl)
              (sub-PeerOwn s.sub_end h.queue s.world ok))))
        (still s p r s.sub_ref s.loop)
    where
      pushed :
          (o : Option World)
          → SomeFrame hm hs m s.sub_end s.world o
          → OnNext (Local s) (
              or_fault o (λ w.
                next (record s { phase = p; req = r; world = w; posted = s.posted ++ x ∷ [] })))
      pushed none f = tt
      pushed (some w) f =
          Local-world s (record s { phase = p; req = r; world = w; posted = s.posted ++ x ∷ [] })
            refl f (λ q. early-Freed p r s w h early) refl (refl, refl, refl)
  script-Local p r (posts x) s early same h = post-Local p p r s p x early h
  script-Local p r c s early same h = tt
