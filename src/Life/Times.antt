-- ===== src/Life/Times.antt =====
-- src/data.h, usedTime and TimeHandle: what _use_time returns while a turn of the loop begins.
use threadjs_lib.Base.{
  ℕ, ◌+◌, ◌-◌, ◌%◌, ◌^◌, ◌<◌, ◌≤◌, ◌≡◌, refl, ap, true, false, [], ◌∷◌, ◌++◌, arith,
}
use threadjs_lib.Life.{ReqData, Thread, next, is_deleted, set_begin}
use threadjs_lib.Life.Calls.{used_time, no_clock, call_use_time}

-- The answer of _use_time.
abbrev pub Answers : Thread → ReqData → ℕ → Type 0
Answers s r n = call_use_time r s ≡ next (record s { times = s.times ++ n ∷ [] })

module _ (s : Thread) (r : ReqData) where
  end_time-Answers :
      (n : ℕ)
      → 0 < r.end_time
      → (r.end_time + 2 ^ 64 - r.begin_time) % 2 ^ 64 % 2 ^ 32 ≡ n
      → Answers s r n
  unfolding call_use_time used_time no_clock
  end_time-Answers n ended e = ground (arith, ended, e)

  now-Answers :
      (n : ℕ)
      → r.end_time ≡ 0
      → r.sub_loop ≡ true
      → is_deleted s.loop ≡ false
      → (s.now + 2 ^ 64 - r.begin_time) % 2 ^ 64 % 2 ^ 32 ≡ n
      → Answers s r n
  unfolding call_use_time used_time no_clock
  now-Answers n running there live e = ground (arith, running, there, live, e)

module _ (s : Thread) (r : ReqData) where
  -- When a turn of the loop begins, later by at most 2^32 ms than the last one ended, _use_time
  -- returns the time of the last turn before the two assignments of TimeHandle, 2^32 less the time
  -- between the turns if it comes between the two, and 0 behind them, while the loop is there and
  -- its clock on 64 bits.
  pub call_use_time-set_begin :
      0 < r.end_time
      → r.begin_time ≤ r.end_time
      → r.end_time < s.now
      → s.now < 2 ^ 64
      → s.now ≤ r.end_time + 2 ^ 32
      → r.sub_loop ≡ true
      → is_deleted s.loop ≡ false
      → Answers s r ((r.end_time - r.begin_time) % 2 ^ 32)
        × Answers s (set_begin s.now r) (2 ^ 32 - (s.now - r.end_time))
        × Answers s (record (set_begin s.now r) { end_time = 0 }) 0
  unfolding set_begin
  call_use_time-set_begin ended order later small near there live =
      let span : (r.end_time + 2 ^ 64 - r.begin_time) % 2 ^ 64 ≡ r.end_time - r.begin_time =
        omega arith in
      (
        end_time-Answers s r _ ended (ap (λ n. n % 2 ^ 32) span),
        end_time-Answers s (set_begin s.now r) _ ended (omega arith),
        now-Answers s (record (set_begin s.now r) { end_time = 0 }) _ refl there live (omega arith),
      )
