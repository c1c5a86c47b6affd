-- ===== src/Life/State.antt =====
-- src/main.cc and src/data.h: the points of do_script, ReqData, and what a thread and its maker share.
use threadjs_lib.Base.{ℕ, Bool, true, false, List, Option, none, some}
use threadjs_lib.IdContainer.{IdContainer, Attr}
use threadjs_lib.ObjectMap.{ObjectMap}
use threadjs_lib.Events.{EventData, World}
use threadjs_lib.Errors.{Caught, ErrorTexts}

-- Where do_script stands; `failing` is its catch, with the step at which it threw, and the last two
-- are the destructor of ReqData and what comes after it.
pub data Phase : Type 0 where
  starting compiling opening booting binding timing scripting asking heading polling polled turning
        draining uninstalling ending freeing_id freeing_event signalling closing :
      Phase
  failing : ℕ → Phase
  leaving ended : Option ℕ → Phase

-- Memory that a raw pointer points to: not there yet, in use, or deleted.
pub data Memory : Type 0 where
  absent live deleted : Memory

-- del_event: quiet, with a signal on its way, or closed by its handler.
pub data Signal : Type 0 where
  quiet signalled handled : Signal

-- `sub_loop` and `sub_event` say whether the pointer is set; it is never taken back. `node` is
-- whether there is a boot_node_file.
pub record ReqData : Type 0 where
  pub node : Bool
  pub running : Bool
  pub terminated : Bool
  pub sub_loop : Bool
  pub sub_event : Bool
  pub begin_time : ℕ
  pub end_time : ℕ

-- What a call on the main side does behind its check of the id.
pub data Call : Type 0 where
  stop : (alive : Bool) → Call
  use_time : Call
  send : EventData → Call

pub data Main : Type 0 where
  resting : Main
  checked : Call → Main

-- `now` is the clock of the thread's loop, `posted` what the thread sent to its maker, `received`
-- what the maker got, and `times` what _use_time returned. main_event and sub_event do not change
-- and are parameters below. The object table is in two parts, the endpoints in `world` and what
-- del_event names in `handles`; no id is looked up as the other kind.
pub record Thread : Type 0 where
  pub phase : Phase
  pub req : Option ReqData
  pub thread_id : ℕ
  pub object : Attr
  pub ids : IdContainer
  pub world : World
  pub sub_end : ℕ
  pub loop : Memory
  pub sub_handle : Memory
  pub sub_ref : Bool
  pub main_handle : Memory
  pub del_event : Signal
  pub del_data : ℕ
  pub handles : ObjectMap ℕ
  pub main : Main
  pub now : ℕ
  pub posted : List EventData
  pub received : List EventData
  pub times : List ℕ

-- `fault` is a use of memory that is not there, `overflow` that of the counter of the object table,
-- and `refused` a choice that does not fit.
pub data Outcome : Type 0 where
  next : Thread → Outcome
  fault overflow refused : Outcome

abbrev pub or_fault : Option World → (World → Outcome) → Outcome
or_fault none f = fault
or_fault (some w) f = f w

pub data Choice : Type 0 where
  goes_on throws returns : Choice
  compiles : Option ErrorTexts → Choice
  sends posts : EventData → Choice
  answers : (caught : Option Caught) → Bool → Choice
  drained : (more : Bool) → Choice
  closes : (busy : Bool) → Choice

abbrev pub to : Phase → Thread → Outcome
to p s = next (record s { phase = p })

abbrev pub is_deleted : Memory → Bool
is_deleted deleted = true
is_deleted _ = false

abbrev pub is_closed : Signal → Bool
is_closed handled = true
is_closed _ = false
