-- ===== src/Errors/Sent.antt =====
-- src/tools.cc, SaveCallFunction::call: what an error in a callback sends.
use threadjs_lib.Base.{
  ℕ, ◌≡◌, refl, sym, subst, ap, Option, Bool, true, false, List, [], ◌∷◌, ◌++◌, none, some, arith,
  ◌>>=◌, All, All-map, All-append,
}
use threadjs_lib.Events.{EventData, World, send_event, of_string, get_data}
use threadjs_lib.Events.Text.{NonZero, get_data-of_string}
use threadjs_lib.Json.{escape, escape_byte}
use threadjs_lib.Json.Reader.{read}
use threadjs_lib.Json.Render.{
  Calls, done, text, lines, nested, write, members, member, quoted, render, write-render,
}
use threadjs_lib.Json.ReadBack.{IsPlain, IsLine, IsClean}
use threadjs_lib.Errors.{
  Caught, ErrorTexts, error_texts, codes, v8_err_event, str_event, send_str,
  cache_v8_err_send_event, save_call,
}
use threadjs_lib.Errors.ReadBack.{
  v8_calls, v8_err_event-write, are_plain, are_plain-IsPlain, IsCleanError, v8_calls-IsClean,
  v8_fields, read-v8_err_event,
}

plain-NonZero : (v : List ℕ) → All IsPlain v → All NonZero v
plain-NonZero v h = All-map (λ c d. λ e. omega (arith, e, d.0)) v h

escape-NonZero : (v : List ℕ) → All IsLine v → All NonZero (escape v)
unfolding escape escape_byte
escape-NonZero [] h = tt
escape-NonZero (c ∷ v) h =
    All-append NonZero (escape_byte c) (escape v) (byte c h.0) (escape-NonZero v h.1)
  where
    byte : (c : ℕ) → IsLine c → All NonZero (escape_byte c)
    byte c d = ground arith

-- A key, and a value behind it.
member-NonZero :
    (first : Bool) (k out : List ℕ)
    → All IsPlain k
    → All NonZero out
    → All NonZero (member first k out)
member-NonZero first k out hk h = separated first
  where
    keyed : All NonZero (b'"' ∷ (k ++ b'"' ∷ b':' ∷ out))
    keyed = (
      (λ e. omega (arith, e)),
      All-append NonZero k _ (plain-NonZero k hk)
          ((λ e. omega (arith, e)), ((λ e. omega (arith, e)), h)),
    )

    separated : (b : Bool) → All NonZero (member b k out)
    separated true = keyed
    separated false = ((λ e. omega (arith, e)), keyed)

quoted-NonZero : (v out : List ℕ) → All NonZero v → All NonZero out → All NonZero (quoted v out)
quoted-NonZero v out hv h =
    ((λ e. omega (arith, e)), All-append NonZero v _ hv ((λ e. omega (arith, e)), h))

members-NonZero :
    (first : Bool) (c : Calls) (out : List ℕ)
    → IsClean c
    → All NonZero out
    → All NonZero (members first c out)
unfolding members
members-NonZero first done out hc h = h
members-NonZero first (text k v more) out (hk, hv, hm) h =
    member-NonZero first k _ hk
      (quoted-NonZero v _ (plain-NonZero v hv) (members-NonZero false more out hm h))
members-NonZero first (lines k v more) out (hk, hv, hm) h =
    member-NonZero first k _ hk
      (quoted-NonZero (escape v) _ (escape-NonZero v hv) (members-NonZero false more out hm h))
members-NonZero first (nested k inner more) out (hk, hi, hm) h = member-NonZero first k _ hk (
  (λ e. omega (arith, e)),
  members-NonZero true inner _ hi ((λ e. omega (arith, e)), members-NonZero false more out hm h),
)

write-NonZero : (c : Calls) → IsClean c → All NonZero (write c)
unfolding render
write-NonZero c h =
    rw (write-render c)
      ((λ e. omega (arith, e)), members-NonZero true c _ h ((λ e. omega (arith, e)), tt))

-- Which texts an error has: all, or none that could be sent.
pub data Says : Caught → Option ErrorTexts → Type 0 where
  all_there :
      (exception stack line : List ℕ) (line_number start_column : ℕ)
      → Says
          (record {
            exception = some exception;
            stack = some stack;
            message = some (record {
              source_line = some line;
              line_number = line_number;
              start_column = start_column;
            });
          })
          (some (record {
            exception = exception;
            stack = stack;
            source_line = line;
            line_number = line_number;
            start_column = start_column;
          }))
  no_exception : {c : Caught} → c.exception ≡ none → Says c none
  no_stack : {c : Caught} → c.stack ≡ none → Says c none
  no_message : {c : Caught} → c.message ≡ none → Says c none

bind_none :
    {A B : Type 0} (o : Option A) (f : A → Option B) → ((a : A) → f a ≡ none) → (o >>= f) ≡ none
bind_none none f h = refl
bind_none (some a) f h = h a

error_texts-Says : {c : Caught} {o : Option ErrorTexts} → Says c o → error_texts c ≡ o
unfolding error_texts
error_texts-Says (all_there x s l n k) = refl
error_texts-Says {c} (no_exception e) = bind_none c.message _ (λ m. rw e refl)
error_texts-Says {c} (no_stack e) =
    bind_none c.message _
      (λ m. bind_none c.exception _ (λ x. bind_none m.source_line _ (λ l. rw e refl)))
error_texts-Says (no_message e) = rw e refl

abbrev pub IsCleanSaid : Option ErrorTexts → Type 0
IsCleanSaid none = Unit {0}
IsCleanSaid (some t) = IsCleanError t

-- What comes of a call that ended in the error.
abbrev pub Sends : ℕ → World → Option ErrorTexts → Option World → Type 0
Sends target w none result = result ≡ none
Sends target w (some t) result =
    (e : EventData) × (result ≡ some (send_event target e w))
    × ((get_data e >>= read) ≡ some (v8_fields (codes "Uncaught") t))

-- The message that an error becomes.
pub send_str-v8_err_event :
    (target : ℕ) (error_type : List ℕ) (c : ErrorTexts) (w : World)
    → All IsPlain error_type
    → IsCleanError c
    → (e : EventData) × (send_str target (v8_err_event error_type c) w
        ≡ some (send_event target e w))
      × ((get_data e >>= read) ≡ some (v8_fields error_type c))
unfolding send_str str_event
send_str-v8_err_event target error_type c w plain clean =
    let t : List ℕ = v8_err_event error_type c in
    let nonzero : All NonZero t =
      subst (All NonZero) (sym (v8_err_event-write error_type c))
        (write-NonZero (v8_calls error_type c) (v8_calls-IsClean error_type c plain clean)) in
    let (delivers, rest, made, len) = get_data-of_string t [] nonzero in
    (of_string t, rw made refl, rw delivers (read-v8_err_event error_type c plain clean))

-- The target of a callback that throws gets one message if the texts of the error are all there and
-- need no escape, and what this message delivers reads back as the error event. If the exception
-- has no text, or there is no stack, as for one that is not an Error, or no message, the call goes
-- through a null pointer. Without an exception, or without a target, nothing is sent.
pub save_call-read :
    (target : ℕ) (c : Caught) (o : Option ErrorTexts) (w : World)
    → Says c o
    → IsCleanSaid o
    → Sends target w o (save_call (some target) (some c) w)
      × (save_call (some target) none w ≡ some w)
      × (save_call none (some c) w ≡ some w)
unfolding save_call cache_v8_err_send_event
save_call-read target c o w says clean =
    (subst (Sends target w o) (sym called) (ended o clean), refl, refl)
  where
    sending : Option ErrorTexts → Option World
    sending o = o >>= λ t. send_str target (v8_err_event (codes "Uncaught") t) w

    called : save_call (some target) (some c) w ≡ sending o
    called = ap sending (error_texts-Says says)

    ended : (o : Option ErrorTexts) → IsCleanSaid o → Sends target w o (sending o)
    ended none clean = refl
    ended (some t) clean =
        send_str-v8_err_event target (codes "Uncaught") t w
          (unfold are_plain in are_plain-IsPlain (codes "Uncaught") refl) clean
