-- ===== src/IdContainer.antt =====
-- src/data.h, class ID_container: the ids of the threads that are alive. Every JavaScript method of
-- a thread first asks here whether its thread still is. Each method holds the lock for its whole
-- body, so a call is one step.
pub mod Lifetime
mod Examples
use threadjs_lib.Base.{ℕ, ◌+◌, ◌%◌, ◌^◌, ◌==◌, ltb, Bool, true, false, List, [], ◌∷◌, if◌then◌else◌}

-- std::set of ids.
unfoldable pub contains : ℕ → List ℕ → Bool
contains k [] = false
contains k (j ∷ s) = if j == k then true else contains k s

unfoldable pub insert : ℕ → List ℕ → List ℕ
unfolding contains
insert k s = if contains k s then s else k ∷ s

unfoldable pub erase : ℕ → List ℕ → List ℕ
erase k [] = []
erase k (j ∷ s) = if j == k then erase k s else j ∷ erase k s

-- `next` is `_id`, an unsigned long of 64 bits.
pub record IdContainer : Type 0 where
  pub thread_id_pool : List ℕ
  pub next : ℕ

unfoldable pub fresh : IdContainer
fresh = record { thread_id_pool = []; next = 1 }

unfoldable pub newid : IdContainer → ℕ × IdContainer
unfolding insert
newid p =
    let id = p.next in
    (id, record { thread_id_pool = insert id p.thread_id_pool; next = (id + 1) % 2 ^ 64 })

unfoldable pub freeid : ℕ → IdContainer → IdContainer
unfolding erase
freeid id p = record p { thread_id_pool = erase id p.thread_id_pool }

unfoldable pub notfree : ℕ → IdContainer → Bool
unfolding contains
notfree id p = contains id p.thread_id_pool

-- What the property `_t_id` of a JavaScript object holds: a Uint32 or something else.
pub data Attr : Type 0 where
  uint32 : ℕ → Attr
  other : Attr

-- `Integer::NewFromUnsigned` takes a uint32_t.
unfoldable pub setid : ℕ → Attr
setid id = uint32 (id % 2 ^ 32)

unfoldable pub getid : Attr → ℕ
getid (uint32 n) = n
getid other = 0

-- The methods that take the JavaScript object.
unfoldable pub newid_object : IdContainer → ℕ × Attr × IdContainer
unfolding newid setid
newid_object p = let (id, p') = newid p in (id, setid id, p')

unfoldable pub freeid_object : Attr → IdContainer → IdContainer
unfolding freeid getid
freeid_object o = freeid (getid o)

unfoldable pub notfree_object : Attr → IdContainer → Bool
unfolding notfree getid
notfree_object o = notfree (getid o)

-- The calls that change the pool.
pub data Call : Type 0 where
  creates : Call
  frees : ℕ → Call

unfoldable pub step : Call → IdContainer → IdContainer
unfolding newid freeid
step creates p = (newid p).1
step (frees id) p = freeid id p

unfoldable pub run : List Call → IdContainer → IdContainer
unfolding step
run [] p = p
run (c ∷ cs) p = run cs (step c p)
