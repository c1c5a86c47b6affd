-- ===== src/Waiting/Examples.antt =====
-- src/tools.h and src/main.cc: one handover, and messages of both lengths.
use threadjs_lib.Base.{
  ℕ, zero, suc, ◌≡◌, refl, ltb, lt→ltb, true, false, List, [], ◌∷◌, ◌++◌, none, some, arith, map,
  if◌then◌else◌, length, take,
}
use threadjs_lib.Waiting.{WaitThread, fresh, reply_text, ok, lock, unlock, set_data, wait_event}
use threadjs_lib.Waiting.System.{
  running, resting, waiting, woken, ready, System, init, Step, sub_call, main_call, calls_wait,
  locks, finds_locked, sets, unlocks, Reach, start, later,
}
use threadjs_lib.Waiting.Suspended.{Later, notify-wait}
use threadjs_lib.Waiting.Handover.{in_flight, wait_returns_given, no_throw}
use threadjs_lib.Waiting.Buffer.{WritesWhole, wait_event-long}

abbrev hello : List ℕ
hello = 104 ∷ 105 ∷ []

-- An argument of notify with a NUL in it.
abbrev cut : List ℕ
cut = 104 ∷ 0 ∷ 105 ∷ []

-- The sub thread has sent its message and is suspended.
abbrev suspended : System
suspended = record init {
  wait = record { locked = true; reply = none };
  sub = waiting;
  sent = hello ∷ [];
}

suspended-Reach : Reach false suspended
unfolding lock
suspended-Reach = later (later start (calls_wait hello refl refl)) (locks refl refl)

-- The main thread has set its reply and is about to unlock.
abbrev replying : System
replying = record suspended {
  wait = record { locked = true; reply = some cut };
  main = ready (some cut);
}

replying-Reach : Reach false replying
unfolding set_data
replying-Reach = later (later suspended-Reach (finds_locked (some cut) refl refl)) (sets refl refl)

notify-wait_example :
    (t : System) × Later false suspended t
    × (t.sub ≡ running)
    × (t.main ≡ resting)
    × (t.answers ≡ true ∷ [])
    × (t.returned ≡ some (104 ∷ []) ∷ [])
    × (t.wait ≡ fresh)
unfolding reply_text
notify-wait_example = notify-wait (some cut) suspended-Reach refl refl

-- It has.
abbrev handed : System
handed = record suspended {
  wait = record { locked = false; reply = some cut };
  sub = woken;
  answers = true ∷ [];
  given = some cut ∷ [];
}

lets_go : Step false replying handed
unfolding unlock
lets_go = unlocks refl refl

handed-Reach : Reach false handed
handed-Reach = later replying-Reach lets_go

wait_returns_given_example :
    map reply_text handed.given ≡ handed.returned ++ in_flight handed.sub handed.wait.reply
wait_returns_given_example = wait_returns_given handed-Reach

no_throw_example :
    ((w : WaitThread) × (sub_call handed.sub handed.wait ≡ ok w))
    × ((w : WaitThread) × (main_call handed.main handed.wait ≡ ok w))
no_throw_example = no_throw handed-Reach

-- A version of WriteUtf8 for texts of one-byte characters.
abbrev write_ascii : List ℕ → ℕ → List ℕ
write_ascii t n = if ltb (length t) n then t ++ 0 ∷ [] else take n t

write_ascii-WritesWhole : WritesWhole write_ascii
write_ascii-WritesWhole t n h = rw (lt→ltb (length t) n h)

abbrev repeated : ℕ → ℕ → List ℕ
repeated zero c = []
repeated (suc n) c = c ∷ repeated n c

wait_event-long_example : wait_event write_ascii (repeated 128 7) (repeated 127 97) ≡ none
wait_event-long_example =
    wait_event-long write_ascii (repeated 128 7) refl (repeated 127 97) (omega arith)
