-- ===== src/Life/Script.antt =====
-- src/main.cc, do_script: its statements, from one point of a thread to the next.
use threadjs_lib.Base.{ℕ, ◌≢◌, refl, Option, none, some}
use threadjs_lib.Errors.{codes, v8_err_event, start_err_event}
use threadjs_lib.Life.{
  Phase, starting, compiling, opening, booting, binding, timing, scripting, asking, heading,
  polling, polled, turning, draining, uninstalling, ending, freeing_id, freeing_event, signalling,
  closing, failing, leaving, ended, live, ReqData, Thread, Choice, goes_on, throws, returns,
  compiles, sends, posts, answers, drained, closes, end_text, time_begin, time_end, dispatch,
  sub_step,
}
use threadjs_lib.Life.Inv.{Inv, IsValid}
use threadjs_lib.Life.Keep.{Keeps, moves-Keeps, Inv-moves, post_str-Keeps, script-Keeps}
use threadjs_lib.Life.Statements.{
  booting-Keeps, binding-Keeps, asking-Keeps, heading-Keeps, polled-Keeps, turning-Keeps,
  draining-Keeps,
}
use threadjs_lib.Life.Release.{
  freeing_id-Keeps, freeing_event-Keeps, signalling-Keeps, closing-Keeps, leaving-Keeps,
}

abbrev IsMessage : Choice → Type 0
IsMessage (sends e) = Unit {0}
IsMessage (posts e) = Unit {0}
IsMessage _ = ⊥

module _ (hm hs m : ℕ) (other : hm ≢ hs) where
  -- A message of the thread's JavaScript.
  message-Keeps :
      (p : Phase) (r : ReqData) (c : Choice) (s : Thread)
      → Inv hm hs m p (some r) s
      → IsMessage c
      → Keeps hm hs m (sub_step hm hs c (record s { phase = p; req = some r }))
  unfolding sub_step dispatch
  message-Keeps scripting r (sends e) s h k =
      script-Keeps hm hs m scripting r (sends e) s refl refl (λ es. tt) h
  message-Keeps scripting r (posts e) s h k =
      script-Keeps hm hs m scripting r (posts e) s refl refl (λ es. tt) h
  message-Keeps asking r (sends e) s h k =
      script-Keeps hm hs m asking r (sends e) s refl refl (λ es. tt) h
  message-Keeps asking r (posts e) s h k =
      script-Keeps hm hs m asking r (posts e) s refl refl (λ es. tt) h
  message-Keeps polling r (sends e) s h k =
      script-Keeps hm hs m polling r (sends e) s refl refl (λ es. tt) h
  message-Keeps polling r (posts e) s h k =
      script-Keeps hm hs m polling r (posts e) s refl refl (λ es. tt) h
  message-Keeps turning r (sends e) s h k =
      script-Keeps hm hs m turning r (sends e) s refl refl (λ es. tt) h
  message-Keeps turning r (posts e) s h k =
      script-Keeps hm hs m turning r (posts e) s refl refl (λ es. tt) h
  message-Keeps draining r (sends e) s h k =
      script-Keeps hm hs m draining r (sends e) s refl refl (λ es. tt) h
  message-Keeps draining r (posts e) s h k =
      script-Keeps hm hs m draining r (posts e) s refl refl (λ es. tt) h
  message-Keeps uninstalling r (sends e) s h k =
      script-Keeps hm hs m uninstalling r (sends e) s refl refl (λ es. tt) h
  message-Keeps uninstalling r (posts e) s h k =
      script-Keeps hm hs m uninstalling r (posts e) s refl refl (λ es. tt) h
  message-Keeps p r (sends e) s h k = tt
  message-Keeps p r (posts e) s h k = tt
  message-Keeps p r c s h k = absurd k

  sub_step-at :
      (p : Phase) (r : Option ReqData) (c : Choice) (s : Thread)
      → Inv hm hs m p r s
      → Keeps hm hs m (sub_step hm hs c (record s { phase = p; req = r }))
  unfolding sub_step dispatch time_begin time_end
  sub_step-at (ended code) r c s h = tt
  sub_step-at starting none c s h = h.req_ok
  sub_step-at p none c s h = h.req_ok
  sub_step-at starting (some r) goes_on s h =
      moves-Keeps hm hs m starting compiling r r s s.sub_ref refl refl refl (λ q. q) h.req_ok h
  sub_step-at starting (some r) throws s h =
      moves-Keeps hm hs m starting (failing 1) r r s s.sub_ref refl refl refl (λ q. tt) h.req_ok h
  sub_step-at compiling (some r) (compiles none) s h =
      moves-Keeps hm hs m compiling opening r r s s.sub_ref refl refl refl (λ q. q) h.req_ok h
  sub_step-at compiling (some r) (compiles (some c)) s h =
      post_str-Keeps hm hs m compiling (failing 2) r s compiling
        (v8_err_event (codes "CompilerError") c) refl refl refl refl (λ es q. tt) h.req_ok h
  sub_step-at opening (some r) goes_on s h =
      Inv-moves hm hs m opening booting (some r) _ s booting s.sub_ref live refl refl refl (λ d. cc)
        (λ q. q) (refl, h.req_ok.1) h
  sub_step-at booting (some r) goes_on s h =
      moves-Keeps hm hs m booting binding r r s s.sub_ref refl refl refl (λ q. q) h.req_ok h
  sub_step-at booting (some r) throws s h = booting-Keeps hm hs m r s h
  sub_step-at binding (some r) goes_on s h = binding-Keeps hm hs m other r s h
  sub_step-at timing (some r) goes_on s h =
      moves-Keeps hm hs m timing scripting r _ s s.sub_ref refl refl refl (λ q. q) h.req_ok h
  sub_step-at scripting (some r) returns s h =
      moves-Keeps hm hs m scripting asking r _ s s.sub_ref refl refl refl (λ q. q) h.req_ok h
  sub_step-at asking (some r) (answers caught b) s h = asking-Keeps hm hs m caught b r s h
  sub_step-at heading (some r) goes_on s h = heading-Keeps hm hs m r s h
  sub_step-at polling (some r) returns s h =
      moves-Keeps hm hs m polling polled r r s s.sub_ref refl refl refl (λ q. q) h.req_ok h
  sub_step-at polled (some r) goes_on s h = polled-Keeps hm hs m r s h
  sub_step-at turning (some r) (answers caught b) s h = turning-Keeps hm hs m caught b r s h
  sub_step-at draining (some r) (drained more) s h = draining-Keeps hm hs m more r s h
  sub_step-at uninstalling (some r) goes_on s h =
      moves-Keeps hm hs m uninstalling ending r r s s.sub_ref refl refl refl (λ q. q) h.req_ok h
  sub_step-at ending (some r) goes_on s h =
      post_str-Keeps hm hs m ending freeing_id r s ending end_text refl refl refl refl (λ es q. q)
        h.req_ok h
  sub_step-at freeing_id (some r) goes_on s h = freeing_id-Keeps hm hs m r s h
  sub_step-at freeing_event (some r) goes_on s h = freeing_event-Keeps hm hs m r s h
  sub_step-at signalling (some r) goes_on s h = signalling-Keeps hm hs m r s h
  sub_step-at closing (some r) (closes busy) s h = closing-Keeps hm hs m busy r s h
  sub_step-at (failing n) (some r) goes_on s h =
      post_str-Keeps hm hs m (failing n) (leaving (some n)) r s (failing n) (start_err_event n) refl
        refl refl refl (λ es q. q) h.req_ok h
  sub_step-at (leaving code) (some r) goes_on s h = leaving-Keeps hm hs m code r s h
  sub_step-at p (some r) (sends e) s h = message-Keeps p r (sends e) s h tt
  sub_step-at p (some r) (posts e) s h = message-Keeps p r (posts e) s h tt
  sub_step-at p (some r) c s h = tt

  -- At every point of its life the next statement of the thread makes no use of memory that is not
  -- there, and what it leaves is valid again.
  pub sub_step-Keeps :
      (c : Choice) (s : Thread) → IsValid hm hs m s → Keeps hm hs m (sub_step hm hs c s)
  sub_step-Keeps c s h = sub_step-at s.phase s.req c s h
