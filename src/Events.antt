-- ===== src/Events.antt =====
-- src/data.h, EventData and RecvEventData, with src/tools.h, free_recv_event_from, and the handlers
-- of src/main.cc: the queues by which the two sides of a thread send each other messages.
-- An endpoint (RecvEventData) lives in the table of ObjectMap; a raw pointer to it is its id there,
-- good until the endpoint is freed. A uv_async_t handle is a number; `handle_data` is its `data` field.
-- Each call below is one step. The code locks the queue for each access to it, but pushEvent and
-- bindPeerEvent are several accesses under no common lock: what holds of them holds of calls that do
-- not overlap, and Events/Races.antt has one overlap.
pub mod Text
pub mod Channel
pub mod Delivery
pub mod Races
pub mod Receive
pub mod Pending
mod Examples
use threadjs_lib.Base.{
  zero, suc, ℕ, ◌+◌, ◌==◌, Bool, true, false, List, [], ◌∷◌, ◌++◌, Option, none, some,
  if◌then◌else◌, ◌>>=◌, length,
}
use threadjs_lib.StdMap.{find, assign}
use threadjs_lib.ObjectMap.{ObjectMap, get, put, rm}

-- A block of chars with its NUL, and the length that goes with it.
pub record EventData : Type 0 where
  pub bytes : List ℕ
  pub len : ℕ

-- The bytes before the first NUL; `none` where there is no NUL to stop at.
unfoldable pub before_nul : List ℕ → Option (List ℕ)
before_nul [] = none
before_nul (c ∷ s) =
    let more = before_nul s in if c == 0 then some [] else more >>= λ t. some (c ∷ t)

-- v8val_to_char of a string with the UTF-8 bytes `s`.
unfoldable pub v8val_to_char : List ℕ → List ℕ × ℕ
v8val_to_char s = (s ++ 0 ∷ [], length s + 1)

-- EventData(Local<String>).
unfoldable pub of_string : List ℕ → EventData
unfolding v8val_to_char
of_string s = let (bytes, len) = v8val_to_char s in record { bytes = bytes; len = len }

-- EventData(const char*): strlen and strcpy, which read past a buffer that has no NUL.
unfoldable pub of_chars : List ℕ → Option EventData
unfolding before_nul
of_chars src = before_nul src >>= λ s. some (record { bytes = s ++ 0 ∷ []; len = length s + 1 })

-- NewFromUtf8 reads up to the first NUL.
unfoldable pub get_data : EventData → Option (List ℕ)
unfolding before_nul
get_data e = before_nul e.bytes

-- A null pointer is `none`: `not_send` once it is deleted, `peer` before it is bound.
pub record RecvEventData : Type 0 where
  pub not_send : Option (List EventData)
  pub events : List EventData
  pub peer : Option ℕ

-- The constructor with its `init`.
abbrev pub new_recv_event_data : RecvEventData
new_recv_event_data = record { not_send = some []; events = []; peer = none }

-- `sent` is the handles that uv_async_send was called on, the last one first.
pub record World : Type 0 where
  pub objects : ObjectMap RecvEventData
  pub handle_data : ℕ → ℕ
  pub sent : List ℕ

unfoldable pub store : ℕ → RecvEventData → World → World
store id r w = record w {
  objects = record { pool = assign id r w.objects.pool; object_id = w.objects.object_id };
}

unfoldable pub uv_async_send : ℕ → World → World
uv_async_send h w = record w { sent = h ∷ w.sent }

-- A read through a raw pointer: `none` is a read of a freed endpoint.
abbrev pub load : ℕ → World → Option RecvEventData
load id w = find id w.objects.pool

-- To a handle whose endpoint is gone the message is dropped.
unfoldable pub send_event : ℕ → EventData → World → World
unfolding store uv_async_send
send_event async e w = elim (get (w.handle_data async) w.objects) [
  | none ↦ w
  | some r ↦
      uv_async_send async (store (w.handle_data async) (record r { events = r.events ++ e ∷ [] }) w)
]

-- The branch of pushEvent without a peer. `none` is a fault: the queue is deleted.
unfoldable pub push_not_send : ℕ → EventData → World → Option World
unfolding store
push_not_send id e w = load id w >>= λ r.
    r.not_send >>= λ q. some (store id (record r { not_send = some (q ++ e ∷ []) }) w)

-- Through a pointer to the sender's own endpoint.
unfoldable pub push_event : ℕ → EventData → World → Option World
unfolding send_event push_not_send
push_event id e w = load id w >>= λ r. elim r.peer [
  | some h ↦ some (send_event h e w)
  | none ↦ push_not_send id e w
]

-- The while loop: the front goes first.
unfoldable pub move_all : List EventData → List EventData → List EventData
move_all [] events = events
move_all (e ∷ not_send) events = move_all not_send (events ++ e ∷ [])

-- The body of swap_not_send_peer behind its first test, for the queue `q` and the peer `h`.
unfoldable pub flush : ℕ → List EventData → ℕ → World → Option World
unfolding store uv_async_send move_all
flush id q h w = elim (get (w.handle_data h) w.objects) [
  | none ↦ some w
  | some p ↦
      let w₁ = store (w.handle_data h) (record p { events = move_all q p.events }) w in
      let w₂ = uv_async_send h w₁ in
      load id w₂ >>= λ r. some (store id (record r { not_send = none }) w₂)
]

unfoldable pub swap_not_send_peer : ℕ → World → Option World
unfolding flush
swap_not_send_peer id w = load id w >>= λ r. elim r.not_send [
  | none ↦ some w
  | some q ↦ elim r.peer [ none ↦ some w | some h ↦ flush id q h w ]
]

unfoldable pub set_peer : ℕ → ℕ → World → Option World
unfolding store
set_peer id h w = load id w >>= λ r. some (store id (record r { peer = some h }) w)

-- bind_peer_event of src/main.cc: its two assignments, and the flush that follows them. Its two
-- lookups leave a null pointer where they fail.
unfoldable pub set_peers : ℕ → ℕ → World → Option World
unfolding set_peer
set_peers main_event sub_event w =
    set_peer (w.handle_data sub_event) main_event w
    >>= set_peer (w.handle_data main_event) sub_event

unfoldable pub bind_peer_event : ℕ → ℕ → World → Option World
bind_peer_event main_event sub_event w =
    set_peers main_event sub_event w >>= swap_not_send_peer (w.handle_data main_event)

-- The event, if there was one.
unfoldable pub next_event : ℕ → World → Option (Option EventData × World)
unfolding store
next_event id w = load id w >>= λ r. elim r.events [
  | [] ↦ some (none, w)
  | e ∷ rest ↦ some (some e, store id (record r { events = rest }) w)
]

-- hasEvent of an endpoint and of a handle, and peerHasEvent.
abbrev pub has_own_event : RecvEventData → Bool
has_own_event r = elim r.events [ [] ↦ false | _ ∷ _ ↦ true ]

unfoldable pub has_event : ℕ → World → Bool
has_event async w = elim (get (w.handle_data async) w.objects) [
  | none ↦ false
  | some r ↦ has_own_event r
]

unfoldable pub peer_has_event : RecvEventData → World → Bool
unfolding has_event
peer_has_event r w = elim r.peer [ none ↦ false | some h ↦ has_event h w ]

-- create_uv_async of src/main.cc: a new endpoint in the table, its id in the handle.
unfoldable pub create_uv_async : ℕ → World → Option (ℕ × World)
create_uv_async h w = put (some new_recv_event_data) w.objects >>= λ (id, objects).
    some (
      id,
      record w { objects = objects; handle_data = λ k. if h == k then id else w.handle_data k },
    )

-- free_recv_event_from of src/tools.h.
unfoldable pub free_recv_event_from : ℕ → World → World
free_recv_event_from h w = elim (get (w.handle_data h) w.objects) [
  | none ↦ w
  | some _ ↦ record w {
    objects = (rm (w.handle_data h) w.objects).1;
    handle_data = λ k. if h == k then 0 else w.handle_data k;
  }
]

-- recv_other_thread_event of src/main.cc, its loop: the texts that `_recv` was called with, in order,
-- and whether it threw. `ready` says whether `_recv` is a function after the calls made so far; fuel
-- is the number of rounds, and `none` is a fault or a loop that goes on.
unfoldable pub recv_loop :
    (List (List ℕ) → Bool) → ℕ → ℕ → List (List ℕ) → World → Option (List (List ℕ) × Bool × World)
unfolding next_event get_data
recv_loop ready zero id texts w = none
recv_loop ready (suc f) id texts w =
    let more = recv_loop ready f id in
    next_event id w >>= λ (o, w'). elim o [
      | none ↦ some (texts, false, w')
      | some e ↦
          let called = get_data e >>= λ t. more (texts ++ t ∷ []) w' in
          if ready texts then called else some (texts, true, w')
    ]

unfoldable pub recv_other_thread_event :
    (List (List ℕ) → Bool) → ℕ → ℕ → World → Option (List (List ℕ) × Bool × World)
unfolding recv_loop
recv_other_thread_event ready fuel h w = elim (get (w.handle_data h) w.objects) [
  | none ↦ some ([], false, w)
  | some _ ↦ recv_loop ready fuel (w.handle_data h) [] w
]
