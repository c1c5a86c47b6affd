-- ===== src/Waiting/System.antt =====
-- src/main.cc, j_wait and j_notify on their two threads: every step is one access to what they
-- share, and the steps of the threads come in any order. No other function of the library uses the
-- WaitThread, j_stop neither.
use threadjs_lib.Base.{ℕ, ◌≡◌, Bool, true, false, List, [], ◌∷◌, ◌++◌, Option, none, some}
use threadjs_lib.Waiting.{
  WaitThread, Result, ok, on_ok, lock, unlock, set_data, set_argument, get_data, reply_text,
}

-- Where the sub thread stands: outside of j_wait; between its message and lock(); suspended; and
-- behind lock().
pub data Sub : Type 0 where
  running sending waiting woken : Sub

-- Where the main thread stands: outside of j_notify; behind its look at `locked`; behind setData.
pub data Main : Type 0 where
  resting : Main
  looked ready : Option (List ℕ) → Main

-- `sent`: the messages of wait; `answers`: what the notify calls returned; `given`: the arguments of
-- those that returned true; `returned`: what the wait calls returned, `none` for the value true.
pub record System : Type 0 where
  pub wait : WaitThread
  pub sub : Sub
  pub main : Main
  pub sent : List (List ℕ)
  pub answers : List Bool
  pub given : List (Option (List ℕ))
  pub returned : List (Option (List ℕ))

abbrev pub init : System
init = record {
  wait = record { locked = false; reply = none };
  sub = running;
  main = resting;
  sent = [];
  answers = [];
  given = [];
  returned = [];
}

-- uv_cond_broadcast: a thread that is suspended goes on, and no other hears of it.
abbrev pub broadcast : Sub → Sub
broadcast waiting = woken
broadcast p = p

-- uv_cond_wait may return with no broadcast; whether it does here is the parameter.
pub data Step (spurious : Bool) (s : System) : System → Type 0 where
  calls_wait :
      (e : List ℕ)
      → s.sub ≡ running
      → s.wait.locked ≡ false
      → Step spurious s (record s { sub = sending; sent = s.sent ++ e ∷ [] })
  wait_fails : s.sub ≡ running → s.wait.locked ≡ true → Step spurious s s
  locks :
      {w : WaitThread}
      → s.sub ≡ sending
      → lock s.wait ≡ ok w
      → Step spurious s (record s { wait = w; sub = waiting })
  wakes_spuriously : spurious ≡ true → s.sub ≡ waiting → Step spurious s (record s { sub = woken })
  takes :
      {w : WaitThread} {r : Option (List ℕ)}
      → s.sub ≡ woken
      → get_data s.wait ≡ ok (r, w)
      → Step spurious s
          (record s { wait = w; sub = running; returned = s.returned ++ reply_text r ∷ [] })
  finds_free :
      s.main ≡ resting
      → s.wait.locked ≡ false
      → Step spurious s (record s { answers = s.answers ++ false ∷ [] })
  finds_locked :
      (arg : Option (List ℕ))
      → s.main ≡ resting
      → s.wait.locked ≡ true
      → Step spurious s (record s { main = looked arg })
  sets :
      {d : List ℕ} {w : WaitThread}
      → s.main ≡ looked (some d)
      → set_data d s.wait ≡ ok w
      → Step spurious s (record s { wait = w; main = ready (some d) })
  sets_nothing : s.main ≡ looked none → Step spurious s (record s { main = ready none })
  unlocks :
      {arg : Option (List ℕ)} {w : WaitThread}
      → s.main ≡ ready arg
      → unlock s.wait ≡ ok w
      → Step spurious s (record s {
        wait = w;
        sub = broadcast s.sub;
        main = resting;
        answers = s.answers ++ true ∷ [];
        given = s.given ++ arg ∷ [];
      })

-- The call of WaitThread that a thread is about to make.
unfoldable pub sub_call : Sub → WaitThread → Result WaitThread
unfolding lock get_data
sub_call running w = ok w
sub_call sending w = lock w
sub_call waiting w = ok w
sub_call woken w = on_ok (get_data w) λ (_, w'). ok w'

unfoldable pub main_call : Main → WaitThread → Result WaitThread
unfolding set_argument unlock
main_call resting w = ok w
main_call (looked arg) w = set_argument arg w
main_call (ready _) w = unlock w

pub data Reach (spurious : Bool) : System → Type 0 where
  start : Reach spurious init
  later : {s t : System} → Reach spurious s → Step spurious s t → Reach spurious t
