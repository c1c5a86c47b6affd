-- ===== src/Life/Ends.antt =====
-- src/main.cc: what a thread leaves behind, and what its maker gets of it afterwards.
use threadjs_lib.Base.{
  ℕ, ◌≡◌, ◌≢◌, refl, sym, subst, ap, ◌∙◌, true, false, Option, none, some, Bool-cases, inl, inr,
}
use threadjs_lib.IdContainer.{notfree_object, notfree, getid}
use threadjs_lib.Events.{load}
use threadjs_lib.Errors.{start_err_event}
use threadjs_lib.Life.{
  Phase, ended, closing, leaving, quiet, handled, is_deleted, is_closed, end_text, ReqData, Thread,
  Outcome, next, Choice, goes_on, closes, sub_step, dispatch,
}
use threadjs_lib.Life.Calls.{receive, recv_delete_event}
use threadjs_lib.Life.System.{
  Step, sub, checks, calls, receives, deletes, ticks, Reach, start, later,
}
use threadjs_lib.Life.Inv.{IsValid, id_live, is_early, ReqOk, PostedOk, EndsIn, WorldOk, stage}
use threadjs_lib.Life.Effects.{OnNext, check_id-OnNext, call_step-OnNext}
use threadjs_lib.Life.Safety.{Created, reached, Reach-IsValid}

module _ (hm hs m : ℕ) (s : Thread) (k : Created hm hs m s) (s' : Thread)
    (reach : Reach hm hs m s s') where
  free_id : (code : Option ℕ) → s'.phase ≡ ended code → notfree_object s'.object s'.ids ≡ false
  unfolding notfree_object notfree getid
  free_id code e = let h = reached hm hs m s k s' reach in rw h.object_ok (h.id_ok ∙ ap id_live e)

  -- A thread, its id below 2^32, that came to its end has freed its ReqData and its id, has sent
  -- the end message last of all, and has signalled del_event.
  pub ended_none :
      s'.phase ≡ ended none
      → (s'.req ≡ none)
        × (notfree_object s'.object s'.ids ≡ false)
        × EndsIn end_text s'.posted
        × (s'.del_event ≢ quiet)
  ended_none e =
      let h = reached hm hs m s k s' reach in
      (
        subst (λ p. ReqOk p s'.req) e h.req_ok,
        free_id none e,
        subst (λ p. PostedOk p s'.posted) e h.posted_ok,
        h.late_ok (ap is_early e),
      )

  -- A thread, its id below 2^32, whose start failed has freed its ReqData and its id and has sent
  -- the error message last of all, but gave del_event no signal: the handle of main_event is open
  -- and its endpoint in the table.
  pub ended_some :
      (n : ℕ)
      → s'.phase ≡ ended (some n)
      → (s'.req ≡ none)
        × (notfree_object s'.object s'.ids ≡ false)
        × EndsIn (start_err_event n) s'.posted
        × (s'.del_event ≡ quiet)
        × (is_deleted s'.main_handle ≡ false)
        × (load m s'.world ≢ none)
  ended_some n e =
      let h = reached hm hs m s k s' reach in
      let quiet' = h.early_ok (ap is_early e) in
      let open' : is_closed s'.del_event ≡ false = ap is_closed quiet' in
      let (p, main) =
        subst (λ p. WorldOk hm hs m (stage p) s'.sub_end h.queue s'.world) e (h.world_ok open') in
      (
        subst (λ p. ReqOk p s'.req) e h.req_ok,
        free_id (some n) e,
        subst (λ p. PostedOk p s'.posted) e h.posted_ok,
        quiet',
        h.main_ok ∙ open',
        λ lost. cc (sym main.2 ∙ lost),
      )

module _ (hm hs m : ℕ) where
  -- What the handler of del_event leaves as it is.
  abbrev AsBefore : Thread → Outcome → Type 0
  AsBefore s = OnNext (λ s'. (s'.received ≡ s.received) × (s'.del_event ≡ s.del_event))

  sub_step-at_late :
      (p : Phase) (r : Option ReqData) (c : Choice) (s : Thread)
      → is_early p ≡ false
      → s.del_event ≡ handled
      → AsBefore s (sub_step hm hs c (record s { phase = p; req = r }))
  unfolding sub_step dispatch
  sub_step-at_late closing none c s e d = tt
  sub_step-at_late closing (some r) (closes b) s e d = (refl, refl)
  sub_step-at_late closing (some r) c s e d = tt
  sub_step-at_late (leaving none) none c s e d = tt
  sub_step-at_late (leaving none) (some r) goes_on s e d = (refl, refl)
  sub_step-at_late (leaving none) (some r) c s e d = tt
  sub_step-at_late (ended none) r c s e d = tt
  sub_step-at_late p r c s e d = cc

  Step-AsBefore :
      (s s' : Thread)
      → IsValid hm hs m s
      → s.del_event ≡ handled
      → Step hm hs m s s'
      → AsBefore s (next s')
  unfolding receive recv_delete_event
  Step-AsBefore s s' h d (sub c e) = elim (Bool-cases (is_early s.phase)) [
    | inl early ↦ cc (sym d ∙ h.early_ok early)
    | inr late ↦ subst (AsBefore s) e (sub_step-at_late s.phase s.req c s late d)
  ]
  Step-AsBefore s s' h d (checks c e) =
      subst (AsBefore s) e (check_id-OnNext _ c s.main s (λ x. (refl, refl)))
  Step-AsBefore s s' h d (calls e) =
      subst (AsBefore s) e
        (call_step-OnNext hs m _ s.main s.req s (λ ts w. (refl, refl)) (λ q b w e. (refl, refl)))
  Step-AsBefore s s' h d (receives e) =
      let gone : is_deleted s.main_handle ≡ true = h.main_ok ∙ ap is_closed d in cc (rw gone at e)
  Step-AsBefore s s' h d (deletes e) = cc (rw d at e)
  Step-AsBefore s s' h d (ticks t le) = (refl, refl)

module _ (hm hs m : ℕ) (s : Thread) (k : Created hm hs m s) (s' : Thread)
    (reach : Reach hm hs m s s') where
  -- Once the handler of del_event of a thread with an id below 2^32 has run, the maker gets no
  -- message more, however many the thread had sent by then.
  pub received_after_delete :
      (s'' : Thread)
      → s'.del_event ≡ handled
      → Reach hm hs m s' s''
      → (s''.received ≡ s'.received) × (s''.del_event ≡ handled)
  received_after_delete s'' d start = (refl, d)
  received_after_delete s'' d (later {t} more step) =
      let (same, d') = received_after_delete t d more in
      let h = Reach-IsValid hm hs m k.other s' t more (reached hm hs m s k s' reach) in
      let (same', d'') = Step-AsBefore hm hs m t s'' h d' step in (same' ∙ same, d'' ∙ d')
