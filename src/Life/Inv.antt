-- ===== src/Life/Inv.antt =====
-- What is true of a thread of src/main.cc at every point of its life, by the phase that it is in.
use threadjs_lib.Base.{
  ℕ, ◌==◌, ◌≡◌, ◌≢◌, Bool, true, false, List, [], ◌∷◌, ◌++◌, Option, none, some,
}
use threadjs_lib.IdContainer.{uint32, contains}
use threadjs_lib.ObjectMap.{get}
use threadjs_lib.ObjectMap.Handles
use threadjs_lib.Events.{EventData, World, load}
use threadjs_lib.Events.Channel.{bound, Represents}
use threadjs_lib.Errors.{start_err_event, str_event}
use threadjs_lib.Life.{
  Phase, starting, compiling, opening, booting, binding, freeing_id, freeing_event, signalling,
  closing, failing, leaving, ended, quiet, ReqData, Thread, is_deleted, is_closed, end_text,
}

-- Whether the id of the thread is in the pool.
abbrev pub id_live : Phase → Bool
id_live freeing_event = false
id_live signalling = false
id_live closing = false
id_live (leaving none) = false
id_live (ended _) = false
id_live _ = true

-- Whether del_event has had no signal yet.
abbrev pub is_early : Phase → Bool
is_early closing = false
is_early (leaving none) = false
is_early (ended none) = false
is_early _ = true

-- Which endpoints stand in the table: that of the main side, both, or that of the main side again.
pub data Stage : Type 0 where
  single paired alone : Stage

abbrev pub stage : Phase → Stage
stage starting = single
stage compiling = single
stage opening = single
stage booting = single
stage binding = single
stage (failing n) = single
stage (leaving (some n)) = single
stage (ended (some n)) = single
stage signalling = alone
stage closing = alone
stage (leaving none) = alone
stage (ended none) = alone
stage _ = paired

abbrev pub is_paired : Stage → Bool
is_paired single = false
is_paired _ = true

-- Whether `sub_loop` is set.
abbrev pub has_loop : Phase → Bool
has_loop starting = false
has_loop compiling = false
has_loop opening = false
has_loop (failing n) = n == 10
has_loop (leaving (some n)) = n == 10
has_loop _ = true

abbrev pub ReqOk : Phase → Option ReqData → Type 0
ReqOk (ended _) r = r ≡ none
ReqOk p none = ⊥
ReqOk p (some r) = (r.sub_loop ≡ has_loop p) × (r.sub_event ≡ is_paired (stage p))

-- The event that is the text `t` is the last one of `es`.
abbrev pub EndsIn : List ℕ → List EventData → Type 0
EndsIn t es = (xs : List EventData) × (e : EventData) × (str_event t ≡ some e) × (es ≡ xs ++ e ∷ [])

-- What was sent to the main side.
abbrev pub PostedOk : Phase → List EventData → Type 0
PostedOk starting es = es ≡ []
PostedOk compiling es = es ≡ []
PostedOk opening es = es ≡ []
PostedOk booting es = es ≡ []
PostedOk binding es = es ≡ []
PostedOk freeing_id es = EndsIn end_text es
PostedOk freeing_event es = EndsIn end_text es
PostedOk signalling es = EndsIn end_text es
PostedOk closing es = EndsIn end_text es
PostedOk (leaving none) es = EndsIn end_text es
PostedOk (ended none) es = EndsIn end_text es
PostedOk (leaving (some n)) es = EndsIn (start_err_event n) es
PostedOk (ended (some n)) es = EndsIn (start_err_event n) es
PostedOk _ es = Unit {0}

module _ (hm hs m : ℕ) where
  -- The main endpoint, with the messages `q`.
  abbrev pub MainAt : Option (List EventData) → Option ℕ → List EventData → World → Type 0
  MainAt kept peer q w =
      (m ≢ 0)
      × (w.handle_data hm ≡ m)
      × (load m w ≡ some (record { not_send = kept; events = q; peer = peer }))

  abbrev pub WorldOk : Stage → ℕ → List EventData → World → Type 0
  WorldOk single s q w = (p : List EventData) × MainAt (some p) none q w
  WorldOk paired s q w = (a u : List EventData) × Represents m s hm hs w (bound a q u)
  WorldOk alone s q w = MainAt none (some hs) q w × (w.handle_data hs ≡ 0)

  -- `queue` is what the main side has not received: what waits, or was lost with the endpoint.
  pub record Inv (p : Phase) (r : Option ReqData) (s : Thread) : Type 0 where
    pub queue : List EventData
    pub req_ok : ReqOk p r
    pub object_ok : s.object ≡ uint32 s.thread_id
    pub id_ok : contains s.thread_id s.ids.thread_id_pool ≡ id_live p
    pub loop_ok : is_deleted s.loop ≡ true → id_live p ≡ false
    pub sub_ok : is_deleted s.sub_handle ≡ true → id_live p ≡ false
    pub early_ok : is_early p ≡ true → s.del_event ≡ quiet
    pub late_ok : is_early p ≡ false → s.del_event ≢ quiet
    pub main_ok : is_deleted s.main_handle ≡ is_closed s.del_event
    pub named : get s.del_data s.handles ≡ some hm
    pub table : Handles.IsValid s.world.objects
    pub world_ok : is_closed s.del_event ≡ false → WorldOk (stage p) s.sub_end queue s.world
    pub delivered : s.received ++ queue ≡ s.posted
    pub posted_ok : PostedOk p s.posted

  abbrev pub IsValid : Thread → Type 0
  IsValid s = Inv s.phase s.req s
