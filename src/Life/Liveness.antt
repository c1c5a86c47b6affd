-- ===== src/Life/Liveness.antt =====
-- src/main.cc, do_script: which statement can come next, and how many after _stop.
use threadjs_lib.Base.{
  ℕ, ◌+◌, ◌≤◌, ◌≡◌, ◌≢◌, ◌⊎◌, refl, sym, subst, Bool, true, false, List, Option, none, some, arith,
  Option-cases, inl, inr, if◌then◌else◌,
}
use threadjs_lib.Errors.{call_ret_bool, str_event, start_err_event}
use threadjs_lib.Events.{create_uv_async, bind_peer_event}
use threadjs_lib.Life.{
  Phase, starting, compiling, binding, scripting, asking, heading, polling, polled, turning,
  draining, ending, freeing_id, signalling, closing, failing, leaving, ended, ReqData, Thread,
  Outcome, next, fault, refused, Choice, goes_on, returns, compiles, answers, drained, closes,
  is_deleted, is_closed, end_text, time_begin, time_end, post, post_str, bind, after_poll, dispatch,
  sub_step,
}
use threadjs_lib.Life.Effects.{
  OnNext, check_id-OnNext, receive-OnNext, recv_delete_event-OnNext, call_step-OnNext,
}
use threadjs_lib.Life.Stopping.{Falls, rank, IsQuiet, Stopped, statement-Falls}
use threadjs_lib.Life.Safety.{Created, sub_step_safe}
use threadjs_lib.Life.System.{Step, sub, checks, calls, receives, deletes, ticks, Reach, later}

abbrev pub NotRefused : Outcome → Type 0
NotRefused refused = ⊥
NotRefused _ = Unit {0}

if-NotRefused :
    (b : Bool) (o o' : Outcome) → NotRefused o → NotRefused o' → NotRefused (if b then o else o')
if-NotRefused true o o' h h' = h
if-NotRefused false o o' h h' = h'

-- The choice by which each statement goes on.
abbrev pub onward : Phase → Choice
onward compiling = compiles none
onward scripting = returns
onward asking = answers none false
onward polling = returns
onward turning = answers none false
onward draining = drained false
onward closing = closes false
onward _ = goes_on

pub onward-IsQuiet : (p : Phase) → IsQuiet (onward p)
onward-IsQuiet starting = tt
onward-IsQuiet p = tt

abbrev pub HasEnded : Phase → Type 0
HasEnded p = (code : Option ℕ) × (p ≡ ended code)

module _ (hm hs : ℕ) where
  post_str-NotRefused : (t : List ℕ) (p : Phase) (s : Thread) → NotRefused (post_str hm hs t p s)
  unfolding post_str post
  post_str-NotRefused t p s = elim (Option-cases (str_event t)) [
    | inl lost ↦ rw (post_str, lost) tt
    | inr (e, made) ↦ rw (post_str, made) (if-NotRefused (is_deleted s.main_handle) fault _ tt tt)
  ]

  bind-NotRefused : (r : ReqData) (s : Thread) → NotRefused (bind hm hs r s)
  unfolding bind
  bind-NotRefused r s = elim (Option-cases (create_uv_async hs s.world)) [
    | inl full ↦ rw (bind, full) tt
    | inr ((id, w), made) ↦
        rw (bind, made)
          (elim (Option-cases (bind_peer_event hm hs w)) [
            | inl lost ↦ rw lost tt
            | inr (w', bound) ↦ rw bound tt
          ])
  ]

  pub onward-NotRefused :
      (p : Phase) (r : Option ReqData) (s : Thread)
      → HasEnded p ⊎ NotRefused (sub_step hm hs (onward p) (record s { phase = p; req = r }))
  unfolding sub_step dispatch time_begin time_end after_poll call_ret_bool
  onward-NotRefused (ended code) r s = inl (code, refl)
  onward-NotRefused starting none s = inr tt
  onward-NotRefused p none s = inr tt
  onward-NotRefused compiling (some r) s = inr tt
  onward-NotRefused binding (some r) s =
      inr (bind-NotRefused r (record s { phase = binding; req = some r }))
  onward-NotRefused heading (some r) s = inr (if-NotRefused r.running _ _ tt tt)
  onward-NotRefused polled (some r) s =
      inr
        (if-NotRefused (is_deleted s.main_handle) fault _ tt (if-NotRefused r.terminated _ _ tt tt))
  onward-NotRefused ending (some r) s =
      inr (post_str-NotRefused end_text freeing_id (record s { phase = ending; req = some r }))
  onward-NotRefused signalling (some r) s =
      inr (if-NotRefused (is_closed s.del_event) fault _ tt tt)
  onward-NotRefused (failing n) (some r) s = inr (
      post_str-NotRefused (start_err_event n) (leaving (some n))
        (record s { phase = failing n; req = some r }))
  onward-NotRefused p (some r) s = inr tt

module _ (hm hs m : ℕ) where
  abbrev pub IsMain : {s s' : Thread} → Step hm hs m s s' → Type 0
  IsMain (sub c e) = ⊥
  IsMain _ = Unit {0}

  -- Statements of the thread other than messages of its JavaScript, `n` of them, with any steps of
  -- the main side between them.
  pub data Quietly (s : Thread) : ℕ → Thread → Type 0 where
    rests : Quietly s 0 s
    states :
        {n : ℕ} {t u : Thread} (c : Choice)
        → Quietly s n t
        → IsQuiet c
        → sub_step hm hs c t ≡ next u
        → Quietly s (n + 1) u
    others :
        {n : ℕ} {t u : Thread} → Quietly s n t → (st : Step hm hs m t u) → IsMain st → Quietly s n u

  abbrev Still : Thread → Thread → Type 0
  Still s s' = (s'.phase ≡ s.phase) × Stopped s'.req

  main-Still : (s s' : Thread) (st : Step hm hs m s s') → IsMain st → Stopped s.req → Still s s'
  main-Still s s' (sub c e) main h = absurd main
  main-Still s s' (checks c e) main h =
      subst (OnNext (Still s)) e (check_id-OnNext (Still s) c s.main s (λ x. (refl, h)))
  main-Still s s' (calls e) main h =
      subst (OnNext (Still s)) e (
        call_step-OnNext hs m (Still s) s.main s.req s (λ ts w. (refl, h))
          (λ q b w e. (refl, refl)))
  main-Still s s' (receives e) main h =
      subst (OnNext (Still s)) e (receive-OnNext hm (Still s) s (λ es w. (refl, h)))
  main-Still s s' (deletes e) main h =
      subst (OnNext (Still s)) e
        (recv_delete_event-OnNext hm (Still s) s.del_event s (λ x d w. (refl, h)))
  main-Still s s' (ticks t le) main h = (refl, h)

  -- Each statement leaves fewer to come.
  Quietly-rank :
      (s t : Thread) (n : ℕ)
      → Quietly s n t
      → Stopped s.req
      → (n + rank t.phase ≤ rank s.phase) × Stopped t.req
  Quietly-rank s t n rests h = (omega arith, h)
  Quietly-rank s u j (states {n} {t} c q quiet e) h =
      let (le, h') = Quietly-rank s t n q h in
      let (lt, h'') =
        subst (Falls (rank t.phase)) e (statement-Falls hm hs t.phase t.req c t quiet h') in
      (omega (arith, le, lt), h'')
  Quietly-rank s u j (others {n} {t} q st main) h =
      let (le, h') = Quietly-rank s t n q h in
      let (same, h'') = main-Still t u st main h' in
      (subst (λ p. n + rank p ≤ rank s.phase) (sym same) le, h'')

  Quietly-Reach :
      (s₀ s t : Thread) (n : ℕ) → Reach hm hs m s₀ s → Quietly s n t → Reach hm hs m s₀ t
  Quietly-Reach s₀ s t n r rests = r
  Quietly-Reach s₀ s u j r (states {n} {t} c q quiet e) =
      later (Quietly-Reach s₀ s t n r q) (sub c e)
  Quietly-Reach s₀ s u j r (others {n} {t} q st main) = later (Quietly-Reach s₀ s t n r q) st

  rank-bound : (p : Phase) → rank p ≤ 20
  rank-bound starting = omega arith
  rank-bound p = omega arith

  -- Once _stop has cleared running, a thread whose id is below 2^32 makes at most twenty statements
  -- more, not counting the messages of its JavaScript, whatever its maker does meanwhile; wherever
  -- that leads, it has ended or has a statement that is no message to go on with, which neither is
  -- refused nor a fault.
  pub Quietly-ends :
      (s₀ s t : Thread) (n : ℕ)
      → Created hm hs m s₀
      → Reach hm hs m s₀ s
      → Stopped s.req
      → Quietly s n t
      → (n ≤ 20)
        × (HasEnded t.phase
            ⊎ ((c : Choice) × IsQuiet c
                × (sub_step hm hs c t ≢ refused)
                × (sub_step hm hs c t ≢ fault)))
  Quietly-ends s₀ s t n k reach h q = (
    omega (arith, (Quietly-rank s t n q h).0, rank-bound s.phase),
    goes (onward-NotRefused hm hs t.phase t.req t),
  )
    where
      goes :
          HasEnded t.phase ⊎ NotRefused (sub_step hm hs (onward t.phase) t)
          → HasEnded t.phase
            ⊎ ((c : Choice) × IsQuiet c
                × (sub_step hm hs c t ≢ refused)
                × (sub_step hm hs c t ≢ fault))
      goes (inl e) = inl e
      goes (inr onwards) = inr (
        onward t.phase,
        onward-IsQuiet t.phase,
        (λ e. subst NotRefused e onwards),
        sub_step_safe hm hs m s₀ k t (Quietly-Reach s₀ s t n reach q) (onward t.phase),
      )
