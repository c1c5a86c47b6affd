-- ===== src/Life/Races.antt =====
-- src/main.cc: calls of the main side that come at the wrong time.
use threadjs_lib.Base.{ℕ, ◌≡◌, refl, subst, true, Option, none, some, Option-cases, inl, inr}
use threadjs_lib.IdContainer.{newid, newid_object, setid, notfree_object}
use threadjs_lib.ObjectMap.{put}
use threadjs_lib.Events.{create_uv_async}
use threadjs_lib.IdContainer.Lifetime.{notfree_object-newid}
use threadjs_lib.Life.{
  leaving, ReqData, Thread, Outcome, next, fault, goes_on, Call, stop, use_time, send, checked,
  sub_step, dispatch,
}
use threadjs_lib.Life.Calls.{
  check_id, call_step, dispatch_call, call_use_time, no_clock, create, started, new_req,
}
use threadjs_lib.Life.Safety.{Created}

-- A call that reads ReqData.
abbrev pub ReadsReq : Call → Type 0
ReadsReq (send e) = ⊥
ReadsReq _ = Unit {0}

abbrev then_calls : ℕ → ℕ → Outcome → Outcome
then_calls hs m (next s) = call_step hs m s
then_calls hs m o = o

-- A _stop or _use_time that found the id alive reads ReqData after it was deleted, if the thread
-- runs the destructor of ReqData before the call does its work.
pub call_step-leaving :
    (hm hs m : ℕ) (s s' : Thread) (c : Call) (code : Option ℕ)
    → s.main ≡ checked c
    → ReadsReq c
    → s.phase ≡ leaving code
    → sub_step hm hs goes_on s ≡ next s'
    → call_step hs m s' ≡ fault
unfolding sub_step dispatch call_step
call_step-leaving hm hs m s s' c code x reads p stepped = after c reads s.req (
    subst (λ x. sub_step hm hs goes_on (record s { main = x; phase = leaving code }) ≡ next s') x
      (subst (λ q. sub_step hm hs goes_on (record s { phase = q }) ≡ next s') p stepped))
  where
    after :
        (c : Call)
        → ReadsReq c
        → (r : Option ReqData)
        → sub_step hm hs goes_on (record s { main = checked c; phase = leaving code; req = r })
          ≡ next s'
        → call_step hs m s' ≡ fault
    after (send e) reads r done = absurd reads
    after c reads none done = cc done
    after (stop b) reads (some r) done = subst (λ o. then_calls hs m o ≡ fault) done refl
    after use_time reads (some r) done = subst (λ o. then_calls hs m o ≡ fault) done refl

-- A _use_time that is the first call on a new thread with an id below 2^32, before the thread has
-- made a step, goes through the pointer to a loop that is not there.
use_time_early :
    (hm hs m : ℕ) (s : Thread)
    → Created hm hs m s
    → (s' : Thread) × (check_id use_time s ≡ next s') × (call_step hs m s' ≡ fault)
unfolding check_id call_step dispatch_call call_use_time no_clock create started new_req
    newid_object
use_time_early hm hs m s k = elim (Option-cases (create_uv_async hm k.world)) [
  | inl full ↦ absurd (cc (rw full at k.made))
  | inr ((m', w), first) ↦ elim (Option-cases (put (some hm) k.handles)) [
    | inl full ↦ absurd (cc (rw (first, full) at k.made))
    | inr ((del_data, handles), second) ↦
        let s₀ : Thread =
          started (new_req k.node) k.ids.next (setid k.ids.next) (newid k.ids).1 w del_data
            handles in
        let same : ◌≡◌ {A = ℕ × Thread} (m', s₀) (m, s) = cc (rw (first, second) at k.made) in
        let known : notfree_object (setid k.ids.next) (newid k.ids).1 ≡ true =
          (notfree_object-newid k.ids 0 k.room).0 in
        subst
          (λ (x : ℕ × Thread).
            (s' : Thread) × (check_id use_time x.1 ≡ next s') × (call_step hs x.0 s' ≡ fault))
          same (record s₀ { main = checked use_time }, rw (check_id, known) refl, refl)
  ]
]
