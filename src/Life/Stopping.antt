-- ===== src/Life/Stopping.antt =====
-- src/main.cc, do_script after _stop: how a thread comes to its end.
use threadjs_lib.Base.{
  ℕ, ◌<◌, ◌≡◌, Bool, true, false, List, Option, none, some, arith, Option-cases, inl, inr,
  if◌then◌else◌,
}
use threadjs_lib.Errors.{call_ret_bool, str_event, v8_err_event, start_err_event, codes}
use threadjs_lib.Events.{EventData, create_uv_async, bind_peer_event}
use threadjs_lib.Life.{
  Phase, starting, compiling, opening, booting, binding, timing, scripting, asking, heading,
  polling, polled, turning, draining, uninstalling, ending, freeing_id, freeing_event, signalling,
  closing, failing, leaving, ended, ReqData, Thread, Outcome, fault, refused, Choice, goes_on,
  throws, returns, compiles, sends, posts, answers, drained, closes, is_deleted, is_closed, to,
  end_text, time_begin, time_end, post, post_str, bind, after_poll, dispatch, sub_step,
}
use threadjs_lib.Life.Effects.{OnNext, if-OnNext}

-- How many statements are left at most, once `running` is false.
abbrev pub rank : Phase → ℕ
rank starting = 20
rank compiling = 19
rank opening = 18
rank booting = 17
rank binding = 16
rank timing = 15
rank scripting = 14
rank asking = 13
rank polling = 12
rank polled = 11
rank turning = 10
rank draining = 9
rank heading = 8
rank uninstalling = 7
rank ending = 6
rank freeing_id = 5
rank freeing_event = 4
rank signalling = 3
rank closing = 2
rank (failing n) = 2
rank (leaving code) = 1
rank (ended code) = 0

-- A choice that is no message of the thread's JavaScript.
abbrev pub IsQuiet : Choice → Type 0
IsQuiet (sends e) = ⊥
IsQuiet (posts e) = ⊥
IsQuiet _ = Unit {0}

-- `running` is false, or ReqData is gone.
abbrev pub Stopped : Option ReqData → Type 0
Stopped none = Unit {0}
Stopped (some r) = r.running ≡ false

abbrev pub Falls : ℕ → Outcome → Type 0
Falls n = OnNext (λ s. (rank s.phase < n) × Stopped s.req)

module _ (hm hs : ℕ) where
  else-Falls :
      (n : ℕ) (b : Bool) (o o' : Outcome) → b ≡ false → Falls n o' → Falls n (if b then o else o')
  else-Falls n true o o' e h = cc
  else-Falls n false o o' e h = h

  post-Falls :
      (e : EventData) (p : Phase) (n : ℕ) (s : Thread)
      → rank p < n
      → Stopped s.req
      → Falls n (post hm hs e p s)
  unfolding post
  post-Falls e p n s lt h = if-OnNext _ (is_deleted s.main_handle) fault _ tt (lt, h)

  post_str-Falls :
      (t : List ℕ) (p : Phase) (n : ℕ) (s : Thread)
      → rank p < n
      → Stopped s.req
      → Falls n (post_str hm hs t p s)
  unfolding post_str
  post_str-Falls t p n s lt h = elim (Option-cases (str_event t)) [
    | inl lost ↦ rw (post_str, lost) tt
    | inr (e, made) ↦ rw (post_str, made) (post-Falls e p n s lt h)
  ]

  bind-Falls : (r : ReqData) (s : Thread) → r.running ≡ false → Falls 16 (bind hm hs r s)
  unfolding bind
  bind-Falls r s h = elim (Option-cases (create_uv_async hs s.world)) [
    | inl full ↦ rw (bind, full) tt
    | inr ((id, w), made) ↦
        rw (bind, made)
          (elim (Option-cases (bind_peer_event hm hs w)) [
            | inl lost ↦ rw lost tt
            | inr (w', bound) ↦ rw bound (omega arith, h)
          ])
  ]

  polled-Falls :
      (r : ReqData) (s : Thread)
      → r.running ≡ false
      → Stopped s.req
      → Falls 11 (after_poll hm hs r s)
  unfolding after_poll time_end
  polled-Falls r s h h' =
      if-OnNext _ (is_deleted s.main_handle) fault _ tt
        (if-OnNext _ r.terminated _ _ (omega arith, h) (omega arith, h'))

  asked-Falls :
      (b : Bool) (r : ReqData) (s : Thread)
      → r.running ≡ false
      → Falls 13 (to (if b then uninstalling else heading) (record s { req = some r }))
  asked-Falls true r s h = (omega arith, h)
  asked-Falls false r s h = (omega arith, h)

  pub statement-Falls :
      (p : Phase) (r : Option ReqData) (c : Choice) (s : Thread)
      → IsQuiet c
      → Stopped r
      → Falls (rank p) (sub_step hm hs c (record s { phase = p; req = r }))
  unfolding sub_step dispatch time_begin time_end
  statement-Falls (ended code) r c s quiet h = tt
  statement-Falls p none c s quiet h = tt
  statement-Falls starting (some r) goes_on s quiet h = (omega arith, h)
  statement-Falls starting (some r) throws s quiet h = (omega arith, h)
  statement-Falls compiling (some r) (compiles none) s quiet h = (omega arith, h)
  statement-Falls compiling (some r) (compiles (some c)) s quiet h =
      post_str-Falls (v8_err_event (codes "CompilerError") c) (failing 2) 19
        (record s { phase = compiling; req = some r }) (omega arith) h
  statement-Falls opening (some r) goes_on s quiet h = (omega arith, h)
  statement-Falls booting (some r) goes_on s quiet h = (omega arith, h)
  statement-Falls booting (some r) throws s quiet h =
      if-OnNext _ r.node _ refused (omega arith, h) tt
  statement-Falls binding (some r) goes_on s quiet h =
      bind-Falls r (record s { phase = binding; req = some r }) h
  statement-Falls timing (some r) goes_on s quiet h = (omega arith, h)
  statement-Falls scripting (some r) returns s quiet h = (omega arith, h)
  statement-Falls asking (some r) (answers caught b) s quiet h =
      asked-Falls (call_ret_bool caught b) r s h
  statement-Falls heading (some r) goes_on s quiet h = else-Falls 8 r.running _ _ h (omega arith, h)
  statement-Falls polling (some r) returns s quiet h = (omega arith, h)
  statement-Falls polled (some r) goes_on s quiet h =
      polled-Falls r (record s { phase = polled; req = some r }) h h
  statement-Falls turning (some r) (answers caught b) s quiet h =
      if-OnNext _ (call_ret_bool caught b) _ _ (omega arith, h) (omega arith, h)
  statement-Falls draining (some r) (drained true) s quiet h = (omega arith, h)
  statement-Falls draining (some r) (drained false) s quiet h = (omega arith, h)
  statement-Falls uninstalling (some r) goes_on s quiet h = (omega arith, h)
  statement-Falls ending (some r) goes_on s quiet h =
      post_str-Falls end_text freeing_id 6 (record s { phase = ending; req = some r }) (omega arith)
        h
  statement-Falls freeing_id (some r) goes_on s quiet h = (omega arith, h)
  statement-Falls freeing_event (some r) goes_on s quiet h = (omega arith, h)
  statement-Falls signalling (some r) goes_on s quiet h =
      if-OnNext _ (is_closed s.del_event) fault _ tt (omega arith, h)
  statement-Falls closing (some r) (closes busy) s quiet h = (omega arith, h)
  statement-Falls (failing n) (some r) goes_on s quiet h =
      post_str-Falls (start_err_event n) (leaving (some n)) 2
        (record s { phase = failing n; req = some r }) (omega arith) h
  statement-Falls (leaving code) (some r) goes_on s quiet h = (omega arith, tt)
  statement-Falls p (some r) (sends e) s quiet h = absurd quiet
  statement-Falls p (some r) (posts e) s quiet h = absurd quiet
  statement-Falls p (some r) c s quiet h = tt
