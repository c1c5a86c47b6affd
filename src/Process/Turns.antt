-- ===== src/Process/Turns.antt =====
-- src/main.cc, do_script: what a statement leaves as it was, whichever comes next.
use threadjs_lib.Base.{ℕ, ◌≢◌, refl, Option, none, some, if◌then◌else◌}
use threadjs_lib.Errors.{codes, v8_err_event, start_err_event, call_ret_bool}
use threadjs_lib.Life.{
  Phase, starting, compiling, opening, booting, binding, timing, scripting, asking, heading,
  polling, polled, turning, draining, uninstalling, ending, freeing_id, freeing_event, signalling,
  closing, failing, leaving, ended, live, deleted, ReqData, Thread, Choice, goes_on, throws,
  returns, compiles, sends, posts, answers, drained, closes, end_text, time_begin, time_end,
  dispatch, sub_step,
}
use threadjs_lib.Life.Inv.{Inv, IsValid}
use threadjs_lib.Life.Effects.{OnNext, if-OnNext}
use threadjs_lib.Process.Frame.{Frame-refl}
use threadjs_lib.Process.Statements.{
  frees-Local, bind-Local, after_poll-Local, freeing_event-Local, signalling-Local,
}
use threadjs_lib.Process.Local.{Local, Local-world, still, post_str-Local, script-Local}

module _ (hm hs m : ℕ) (other : hm ≢ hs) where
  abbrev IsMessage : Choice → Type 0
  IsMessage (sends e) = Unit {0}
  IsMessage (posts e) = Unit {0}
  IsMessage _ = ⊥

  -- A message of the thread's JavaScript.
  message-Local :
      (p : Phase) (r : ReqData) (c : Choice) (s : Thread)
      → IsMessage c
      → Inv hm hs m p (some r) s
      → OnNext (Local hm hs m s) (sub_step hm hs c (record s { phase = p; req = some r }))
  unfolding sub_step dispatch
  message-Local scripting r (sends e) s k h =
      script-Local hm hs m scripting (some r) (sends e) s refl refl h
  message-Local scripting r (posts e) s k h =
      script-Local hm hs m scripting (some r) (posts e) s refl refl h
  message-Local asking r (sends e) s k h =
      script-Local hm hs m asking (some r) (sends e) s refl refl h
  message-Local asking r (posts e) s k h =
      script-Local hm hs m asking (some r) (posts e) s refl refl h
  message-Local polling r (sends e) s k h =
      script-Local hm hs m polling (some r) (sends e) s refl refl h
  message-Local polling r (posts e) s k h =
      script-Local hm hs m polling (some r) (posts e) s refl refl h
  message-Local turning r (sends e) s k h =
      script-Local hm hs m turning (some r) (sends e) s refl refl h
  message-Local turning r (posts e) s k h =
      script-Local hm hs m turning (some r) (posts e) s refl refl h
  message-Local draining r (sends e) s k h =
      script-Local hm hs m draining (some r) (sends e) s refl refl h
  message-Local draining r (posts e) s k h =
      script-Local hm hs m draining (some r) (posts e) s refl refl h
  message-Local uninstalling r (sends e) s k h =
      script-Local hm hs m uninstalling (some r) (sends e) s refl refl h
  message-Local uninstalling r (posts e) s k h =
      script-Local hm hs m uninstalling (some r) (posts e) s refl refl h
  message-Local p r (sends e) s k h = tt
  message-Local p r (posts e) s k h = tt
  message-Local p r c s k h = absurd k

  sub_step_at :
      (p : Phase) (r : Option ReqData) (c : Choice) (s : Thread)
      → Inv hm hs m p r s
      → OnNext (Local hm hs m s) (sub_step hm hs c (record s { phase = p; req = r }))
  unfolding sub_step dispatch time_begin time_end
  sub_step_at (ended code) r c s h = tt
  sub_step_at p none c s h = tt
  sub_step_at starting (some r) goes_on s h = still hm hs m s _ _ _ _
  sub_step_at starting (some r) throws s h = still hm hs m s _ _ _ _
  sub_step_at compiling (some r) (compiles none) s h = still hm hs m s _ _ _ _
  sub_step_at compiling (some r) (compiles (some c)) s h =
      post_str-Local hm hs m compiling (failing 2) (some r) s compiling
        (v8_err_event (codes "CompilerError") c) refl h
  sub_step_at opening (some r) goes_on s h = still hm hs m s _ _ _ _
  sub_step_at booting (some r) goes_on s h = still hm hs m s _ _ _ _
  sub_step_at booting (some r) throws s h =
      if-OnNext (Local hm hs m s) r.node _ _ (still hm hs m s _ _ _ _) tt
  sub_step_at binding (some r) goes_on s h = bind-Local hm hs m other r s h
  sub_step_at timing (some r) goes_on s h = still hm hs m s _ _ _ _
  sub_step_at scripting (some r) returns s h = still hm hs m s _ _ _ _
  sub_step_at asking (some r) (answers caught b) s h = still hm hs m s _ _ _ _
  sub_step_at heading (some r) goes_on s h =
      if-OnNext (Local hm hs m s) r.running _ _ (still hm hs m s _ _ _ _) (still hm hs m s _ _ _ _)
  sub_step_at polling (some r) returns s h = still hm hs m s _ _ _ _
  sub_step_at polled (some r) goes_on s h = after_poll-Local hm hs m r s h
  sub_step_at turning (some r) (answers caught b) s h =
      if-OnNext (Local hm hs m s) (call_ret_bool caught b) _ _ (still hm hs m s _ _ _ _)
        (still hm hs m s _ _ _ _)
  sub_step_at draining (some r) (drained more) s h = still hm hs m s _ _ _ _
  sub_step_at uninstalling (some r) goes_on s h = still hm hs m s _ _ _ _
  sub_step_at ending (some r) goes_on s h =
      post_str-Local hm hs m ending freeing_id (some r) s ending end_text refl h
  sub_step_at freeing_id (some r) goes_on s h = frees-Local hm hs m s _ _
  sub_step_at freeing_event (some r) goes_on s h = freeing_event-Local hm hs m r s h
  sub_step_at signalling (some r) goes_on s h = signalling-Local hm hs m r s h
  sub_step_at closing (some r) (closes busy) s h =
      Local-world hm hs m s
        (record s {
          phase = leaving none;
          req = some r;
          sub_handle = deleted;
          loop = if busy then live else deleted;
        })
        refl (Frame-refl hm hs m s.sub_end s.world) (λ q. q) refl (refl, refl, refl)
  sub_step_at (failing n) (some r) goes_on s h =
      post_str-Local hm hs m (failing n) (leaving (some n)) (some r) s (failing n)
        (start_err_event n) refl h
  sub_step_at (leaving code) (some r) goes_on s h = frees-Local hm hs m s _ _
  sub_step_at p (some r) (sends e) s h = message-Local p r (sends e) s tt h
  sub_step_at p (some r) (posts e) s h = message-Local p r (posts e) s tt h
  sub_step_at p (some r) c s h = tt

  pub sub_step-Local :
      (c : Choice) (s : Thread) → IsValid hm hs m s → OnNext (Local hm hs m s) (sub_step hm hs c s)
  sub_step-Local c s h = sub_step_at s.phase s.req c s h
