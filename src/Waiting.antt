-- ===== src/Waiting.antt =====
-- src/tools.h, class WaitThread, and src/main.cc, j_wait and j_notify: how the sub thread suspends
-- itself until the main thread lets it go on. An exception is a value of `Result`.
pub mod Buffer
pub mod System
pub mod Races
mod Examples
pub mod Handover
pub mod Suspended
use threadjs_lib.Base.{
  ℕ, zero, suc, ◌+◌, ltb, ◌≡◌, Bool, true, false, List, [], ◌∷◌, ◌++◌, Option, none, some,
  if◌then◌else◌, ◌==◌, length, drop, ◌>>=◌,
}
use threadjs_lib.Events.{EventData, of_chars}

-- The texts that the class throws.
pub data Thrown : Type 0 where
  cannot_lock_twice cannot_unlock must_locked must_unlock : Thrown

pub data Result {ℓ} (A : Type ℓ) : Type ℓ where
  ok : A → Result A
  throws : Thrown → Result A

-- `reply` is the field `data`, with null as `none`.
pub record WaitThread : Type 0 where
  pub locked : Bool
  pub reply : Option (List ℕ)

unfoldable pub fresh : WaitThread
fresh = record { locked = false; reply = none }

-- `lock` up to uv_cond_wait, which releases the mutex and suspends the thread.
unfoldable pub lock : WaitThread → Result WaitThread
lock w = if w.locked then throws cannot_lock_twice else ok (record w { locked = true })

abbrev pub is_locked : WaitThread → Bool
is_locked w = w.locked

-- `unlock` up to uv_cond_broadcast.
unfoldable pub unlock : WaitThread → Result WaitThread
unlock w = if w.locked then ok (record w { locked = false }) else throws cannot_unlock

unfoldable pub set_data : List ℕ → WaitThread → Result WaitThread
set_data d w = if w.locked then ok (record w { reply = some d }) else throws must_locked

unfoldable pub get_data : WaitThread → Result (Option (List ℕ) × WaitThread)
get_data w = if w.locked then throws must_unlock else ok (w.reply, record w { reply = none })

-- The string that NewFromUtf8 makes of the data of j_wait, read up to the first NUL: the bytes of the
-- argument of j_notify, behind which v8val_to_char put a NUL. Without data it is the value true.
unfoldable pub up_to_nul : List ℕ → List ℕ
up_to_nul [] = []
up_to_nul (c ∷ d) = if c == 0 then [] else c ∷ up_to_nul d

unfoldable pub reply_text : Option (List ℕ) → Option (List ℕ)
unfolding up_to_nul
reply_text none = none
reply_text (some d) = some (up_to_nul d)

-- An exception ends the function that calls.
abbrev pub on_ok {ℓ κ} : {A : Type ℓ} {B : Type κ} → Result A → (A → Result B) → Result B
on_ok (ok a) f = f a
on_ok (throws t) f = throws t

-- j_notify run through with no other thread in between: its answer, and the new state. The argument
-- is the string, if it is one.
unfoldable pub set_argument : Option (List ℕ) → WaitThread → Result WaitThread
unfolding set_data
set_argument none w = ok w
set_argument (some d) w = set_data d w

unfoldable pub notify : Option (List ℕ) → WaitThread → Result (Bool × WaitThread)
unfolding set_argument unlock
notify arg w =
    if is_locked w
    then on_ok (set_argument arg w) (λ w₁. on_ok (unlock w₁) (λ w₂. ok (true, w₂)))
    else ok (false, w)

-- The char array of j_wait.
abbrev pub event_size : ℕ
event_size = 128

-- The array with `s` written to its front.
unfoldable pub overlay : List ℕ → List ℕ → List ℕ
overlay [] buf = buf
overlay (c ∷ s) [] = []
overlay (c ∷ s) (_ ∷ buf) = c ∷ overlay s buf

-- A write to one place; `none` is outside the array.
unfoldable pub poke : ℕ → ℕ → List ℕ → Option (List ℕ)
poke i v [] = none
poke zero v (_ ∷ buf) = some (v ∷ buf)
poke (suc i) v (c ∷ buf) = poke i v buf >>= λ buf'. some (c ∷ buf')

-- The message of j_wait for the argument with the UTF-8 bytes `s`, in the uninitialised array `buf`.
-- `write_utf8` is String::WriteUtf8 of v8: the bytes that it writes with a capacity.
unfoldable pub wait_event : (List ℕ → ℕ → List ℕ) → List ℕ → List ℕ → Option EventData
unfolding overlay poke
wait_event write_utf8 buf s =
    poke (length s + 1) 0 (overlay (write_utf8 s event_size) buf) >>= of_chars
