-- ===== src/Process.antt =====
-- src/main.cc: the threads of a process at once. They share the ids, the object table and the table
-- that del_event names its handle in; the rest of a thread is its own and that of its maker, whose
-- calls and handlers come with it here.
pub mod Frame
pub mod Binding
pub mod Local
pub mod Statements
pub mod Turns
pub mod Callers
pub mod Inv
pub mod Making
pub mod Turning
pub mod Safety
mod Examples
use threadjs_lib.Base.{ℕ, ◌+◌, ◌<◌, ◌^◌, ◌==◌, ◌≡◌, ◌≢◌, Bool, false, List, [], some, if◌then◌else◌}
use threadjs_lib.IdContainer.{IdContainer, Attr, other, fresh}
use threadjs_lib.ObjectMap.{ObjectMap, empty}
use threadjs_lib.Events.{World}
use threadjs_lib.Life.{Thread}
use threadjs_lib.Life.Calls.{create, started, new_req}
use threadjs_lib.Life.System

-- A thread with its main_event, its sub_event and the id of its main endpoint.
pub record Member : Type 0 where
  pub hm : ℕ
  pub hs : ℕ
  pub m : ℕ
  pub thread : Thread

-- The members that there are stand below `size`.
pub record Process : Type 0 where
  pub ids : IdContainer
  pub world : World
  pub handles : ObjectMap ℕ
  pub size : ℕ
  pub members : ℕ → Member

-- A thread as it sees what it shares.
abbrev pub view : Process → Member → Thread
view p a = record (a.thread) { ids = p.ids; world = p.world; handles = p.handles }

abbrev pub update : (ℕ → Member) → ℕ → Member → ℕ → Member
update f i a j = if i == j then a else f j

-- A member after its step.
abbrev pub moved : Member → Thread → Member
moved a s = record a { thread = s }

-- The process after a step of one member, or with one more, which left the thread `s`.
unfoldable pub share : Process → ℕ → Member → Process
share p i a = record p {
  ids = a.thread.ids;
  world = a.thread.world;
  handles = a.thread.handles;
  members = update p.members i a;
}

unfoldable pub join : Process → Member → Process
unfolding share
join p a = record (share p p.size a) { size = p.size + 1 }

-- Addresses of other handles.
pub record New (p : Process) (h : ℕ) : Type 0 where
  pub not_main : (i : ℕ) → i < p.size → (p.members i).hm ≢ h
  pub not_sub : (i : ℕ) → i < p.size → (p.members i).hs ≢ h

-- A turn is a step of any thread, or of its maker for it; any thread may call j_create, here while
-- its ids fit in a uint32.
pub data Step (p : Process) : Process → Type 0 where
  turn :
      {s : Thread} (i : ℕ)
      → i < p.size
      → System.Step ((p.members i).hm) ((p.members i).hs) ((p.members i).m) (view p (p.members i)) s
      → Step p (share p i (moved (p.members i) s))
  creates :
      (node : Bool) (a : Member)
      → a.hm ≢ a.hs
      → New p a.hm
      → New p a.hs
      → p.ids.next < 2 ^ 32
      → create a.hm node p.world p.handles p.ids ≡ some (a.m, a.thread)
      → Step p (join p a)

pub data Reach (p : Process) : Process → Type 0 where
  begins : Reach p p
  later : {q r : Process} → Reach p q → Step q r → Reach p r

abbrev pub no_world : World
no_world = record { objects = empty; handle_data = λ k. 0; sent = [] }

-- Before the first j_create.
abbrev pub no_threads : Process
no_threads = record {
  ids = fresh;
  world = no_world;
  handles = empty;
  size = 0;
  members = λ i. record {
    hm = 0;
    hs = 0;
    m = 0;
    thread = started (new_req false) 0 other fresh no_world 0 empty;
  };
}
