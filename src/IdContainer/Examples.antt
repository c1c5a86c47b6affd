-- ===== src/IdContainer/Examples.antt =====
-- src/data.h, class ID_container: runs on a pool in which the threads 1 and 3 are alive.
use threadjs_lib.Base.{◌^◌, ◌==◌, ◌≡◌, true, false, [], ◌∷◌, arith, if◌then◌else◌}
use threadjs_lib.IdContainer.{
  IdContainer, creates, freeid, notfree, newid_object, notfree_object, freeid_object, run,
}
use threadjs_lib.IdContainer.Lifetime.{IsValid, notfree_object-newid, notfree-run-freeid}

abbrev pool : IdContainer
pool = record { thread_id_pool = 3 ∷ 1 ∷ []; next = 4 }

pool-IsValid : IsValid pool
pool-IsValid = omega arith

-- A pool that has seen 2 ^ 32 threads.
abbrev old_pool : IdContainer
old_pool = record { thread_id_pool = []; next = 2 ^ 32 }

notfree_object-newid_example :
    let (id, o, p) = newid_object pool in
    (notfree_object o p ≡ true)
    × (notfree_object o (freeid 3 p) ≡ (if 3 == id then false else true))
    × (freeid_object o p ≡ freeid id p)
notfree_object-newid_example = notfree_object-newid pool 3 (omega arith)

notfree-run-freeid_example : notfree 3 (run (creates ∷ creates ∷ []) (freeid 3 pool)) ≡ false
notfree-run-freeid_example =
    notfree-run-freeid 3 (creates ∷ creates ∷ []) pool (omega arith) (omega arith)
