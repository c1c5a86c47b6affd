-- ===== src/Life/Safety.antt =====
-- src/main.cc: a thread and its maker from j_create on, in any order of their steps.
use threadjs_lib.Base.{ℕ, ◌<◌, ◌^◌, ◌≡◌, ◌≢◌, subst, Bool, List, ◌++◌, some}
use threadjs_lib.IdContainer.{IdContainer}
use threadjs_lib.ObjectMap.{ObjectMap}
use threadjs_lib.ObjectMap.Handles
use threadjs_lib.Events.{EventData, World}
use threadjs_lib.Life.{Thread, Choice, fault, sub_step}
use threadjs_lib.Life.Calls.{create}
use threadjs_lib.Life.System.{
  Step, sub, checks, calls, receives, deletes, ticks, Reach, start, later,
}
use threadjs_lib.Life.Inv.{IsValid}
use threadjs_lib.Life.Creation.{create-IsValid}
use threadjs_lib.Life.Table.{TableOk}
use threadjs_lib.Life.Keep.{Keeps}
use threadjs_lib.Life.Script.{sub_step-Keeps}
use threadjs_lib.Life.Callers.{Leaves, Inv-calls, check_id-Leaves, call_step-Leaves}
use threadjs_lib.Life.Handlers.{receive-Leaves, recv_delete_event-Leaves}

module _ (hm hs m : ℕ) (other : hm ≢ hs) where
  pub Step-IsValid : (s s' : Thread) → Step hm hs m s s' → IsValid hm hs m s → IsValid hm hs m s'
  Step-IsValid s s' (sub c e) h = subst (Keeps hm hs m) e (sub_step-Keeps hm hs m other c s h)
  Step-IsValid s s' (checks c e) h = subst (Leaves hm hs m) e (check_id-Leaves hm hs m c s h)
  Step-IsValid s s' (calls e) h = subst (Leaves hm hs m) e (call_step-Leaves hm hs m s h)
  Step-IsValid s s' (receives e) h = subst (Leaves hm hs m) e (receive-Leaves hm hs m s h)
  Step-IsValid s s' (deletes e) h = subst (Leaves hm hs m) e (recv_delete_event-Leaves hm hs m s h)
  Step-IsValid s s' (ticks t le) h =
      Inv-calls hm hs m s s.req s.main s.times t s.world h h.req_ok h.table h.world_ok

  pub Reach-IsValid : (s s' : Thread) → Reach hm hs m s s' → IsValid hm hs m s → IsValid hm hs m s'
  Reach-IsValid s s' start h = h
  Reach-IsValid s s' (later {t} r d) h = Step-IsValid t s' d (Reach-IsValid s t r h)

-- What j_create needs: two handles, tables whose ids were all handed out, and an id that a uint32
-- holds; the thread `s` and the id `m` of its endpoint are what comes of it.
pub record Created (hm hs m : ℕ) (s : Thread) : Type 0 where
  pub other : hm ≢ hs
  pub node : Bool
  pub world : World
  pub handles : ObjectMap ℕ
  pub ids : IdContainer
  pub table : TableOk world
  pub named : Handles.IsValid handles
  pub room : ids.next < 2 ^ 32
  pub made : create hm node world handles ids ≡ some (m, s)

module _ (hm hs m : ℕ) (s : Thread) (k : Created hm hs m s) (s' : Thread)
    (reach : Reach hm hs m s s') where
  pub reached : IsValid hm hs m s'
  reached =
      Reach-IsValid hm hs m k.other s s' reach
        (create-IsValid hm hs m k.node k.world k.handles k.ids s k.table k.named k.room k.made)

  -- At no point of the life of a thread that j_create made, with an id below 2^32, whatever the
  -- order in which its steps and those of its maker came, does the next statement of do_script use
  -- memory that is not there.
  pub sub_step_safe : (c : Choice) → sub_step hm hs c s' ≢ fault
  sub_step_safe c e = subst (Keeps hm hs m) e (sub_step-Keeps hm hs m k.other c s' reached)

  -- At every point of the life of a thread that j_create made, with an id below 2^32, the messages
  -- that its maker got are the first ones of those that the thread sent, in order.
  pub received_prefix : (q : List EventData) × (s'.received ++ q ≡ s'.posted)
  received_prefix = (reached.queue, reached.delivered)
