-- ===== src/IdContainer/Lifetime.antt =====
-- src/data.h, class ID_container: how long a thread's id and its object are alive.
use threadjs_lib.Base.{
  ◌⊎◌, inl, inr, ℕ, ◌+◌, ◌%◌, ◌^◌, ◌≤◌, ◌<◌, ◌==◌, ◌≡◌, refl, ap, Bool-cases, ==-refl, true, false,
  List, [], ◌∷◌, arith, if◌then◌else◌, length, All,
}
use threadjs_lib.IdContainer.{
  IdContainer, Call, creates, frees, contains, insert, erase, newid, freeid, notfree, setid, getid,
  newid_object, freeid_object, notfree_object, step, run,
}

pub contains-insert :
    (k j : ℕ) (s : List ℕ) → contains j (insert k s) ≡ (if k == j then true else contains j s)
unfolding insert contains
contains-insert k j s = ground arith

pub contains-erase :
    (k j : ℕ) (s : List ℕ) → contains j (erase k s) ≡ (if k == j then false else contains j s)
unfolding erase contains
contains-erase k j [] = ground arith
contains-erase k j (i ∷ s) = ground (arith, contains-erase k j s)

pub erase_absent : (k : ℕ) (s : List ℕ) → contains k s ≡ false → erase k s ≡ s
unfolding erase contains
erase_absent k [] e = refl
erase_absent k (j ∷ s) e = elim (Bool-cases (j == k)) [
  | inl hit ↦ cc (rw hit at e)
  | inr miss ↦ rw miss (ap (◌∷◌ j) (erase_absent k s (rw miss at e)))
]

-- An id that was not there goes without a trace.
pub erase-insert : (k : ℕ) (s : List ℕ) → contains k s ≡ false → erase k (insert k s) ≡ s
unfolding insert erase
erase-insert k s e = rw e (rw (==-refl k) (erase_absent k s e))

abbrev Below : ℕ → ℕ → Type 0
Below n k = (0 < k) × (k < n)

-- No id in the pool is 0, which an object without an id stands for, and none is yet to be handed out.
pub record IsValid (p : IdContainer) : Type 0 where
  pub started : 0 < p.next
  pub below : All (λ k. (0 < k) × (k < p.next)) p.thread_id_pool

contains_above : (n k : ℕ) (s : List ℕ) → All (Below n) s → n ≤ k → contains k s ≡ false
unfolding contains
contains_above n k [] h le = refl
contains_above n k (i ∷ s) h le = ground (arith, contains_above n k s h.1)

-- A new id was not alive before, is alive now, and its making touches no other.
pub notfree-newid :
    (p : IdContainer) (j : ℕ)
    → IsValid p
    → (notfree (newid p).0 p ≡ false)
      × (notfree j (newid p).1 ≡ (if (newid p).0 == j then true else notfree j p))
unfolding newid notfree
notfree-newid p j v = (
  contains_above p.next p.next p.thread_id_pool v.below (omega arith),
  contains-insert p.next j p.thread_id_pool,
)

-- While ids fit in 32 bits the object that `newid` marks answers for its own thread: it is alive
-- at once, `freeid` of any thread ends that thread and no other.
pub notfree_object-newid :
    (p : IdContainer) (k : ℕ)
    → p.next < 2 ^ 32
    → let (id, o, p') = newid_object p in
      (notfree_object o p' ≡ true)
      × (notfree_object o (freeid k p') ≡ (if k == id then false else true))
      × (freeid_object o p' ≡ freeid id p')
unfolding newid_object notfree_object freeid_object freeid notfree newid setid getid
notfree_object-newid p k lt =
    let e : p.next % 2 ^ 32 ≡ p.next = omega arith in
    rw e (
      ground (arith, contains-insert p.next p.next p.thread_id_pool),
      ground (
        arith,
        contains-erase k p.next (insert p.next p.thread_id_pool),
        contains-insert p.next p.next p.thread_id_pool,
      ),
      refl,
    )

-- From 2 ^ 32 on they do not: the object holds another number than the thread's id. If that number
-- is not alive itself, the object of a thread that is alive answers that it is closed.
pub notfree_object-newid_wide :
    (p : IdContainer)
    → 2 ^ 32 ≤ p.next
    → notfree (p.next % 2 ^ 32) p ≡ false
    → let (id, o, p') = newid_object p in (notfree id p' ≡ true) × (notfree_object o p' ≡ false)
unfolding newid_object notfree_object notfree newid setid getid
notfree_object-newid_wide p le dead = (
  ground (arith, contains-insert p.next p.next p.thread_id_pool),
  ground (arith, contains-insert p.next (p.next % 2 ^ 32) p.thread_id_pool),
)

All-erase : (n k : ℕ) (s : List ℕ) → All (Below n) s → All (Below n) (erase k s)
unfolding erase
All-erase n k [] h = tt
All-erase n k (i ∷ s) h = ground (arith, All-erase n k s h.1)

Below-mono : (n : ℕ) (s : List ℕ) → All (Below n) s → All (Below (n + 1)) s
Below-mono n [] h = tt
Below-mono n (i ∷ s) h = ((h.0.0, omega arith), Below-mono n s h.1)

All-insert : (n : ℕ) (s : List ℕ) → 0 < n → All (Below n) s → All (Below (n + 1)) (insert n s)
unfolding insert
All-insert n s pos h = ground (arith, Below-mono n s h)

step-IsValid : (c : Call) (p : IdContainer) → p.next + 1 < 2 ^ 64 → IsValid p → IsValid (step c p)
unfolding step
step-IsValid creates p lt v =
    let e : (p.next + 1) % 2 ^ 64 ≡ p.next + 1 = omega arith in
    record {
      started = rw e (omega arith);
      below = rw e (All-insert p.next p.thread_id_pool v.started v.below);
    }
step-IsValid (frees id) p lt v = record {
  started = v.started;
  below = All-erase p.next id p.thread_id_pool v.below;
}

step-next :
    (c : Call) (p : IdContainer)
    → p.next + 1 < 2 ^ 64
    → ((step c p).next ≡ p.next) ⊎ ((step c p).next ≡ p.next + 1)
unfolding step
step-next creates p lt = inr (omega arith)
step-next (frees id) p lt = inl refl

-- Every history that the counter has room for leaves the pool valid.
pub run-IsValid :
    (cs : List Call) (p : IdContainer)
    → p.next + length cs < 2 ^ 64
    → IsValid p
    → IsValid (run cs p)
unfolding run
run-IsValid [] p h v = v
run-IsValid (c ∷ cs) p h v =
    run-IsValid cs (step c p) (omega (arith, step-next c p)) (step-IsValid c p (omega arith) v)

step_dead :
    (id : ℕ) (c : Call) (p : IdContainer)
    → id < p.next
    → notfree id p ≡ false
    → notfree id (step c p) ≡ false
unfolding step notfree
step_dead id creates p lt h = ground (arith, contains-insert p.next id p.thread_id_pool)
step_dead id (frees k) p lt h = ground (arith, contains-erase k id p.thread_id_pool)

run_dead :
    (id : ℕ) (cs : List Call) (p : IdContainer)
    → p.next + length cs < 2 ^ 64
    → id < p.next
    → notfree id p ≡ false
    → notfree id (run cs p) ≡ false
unfolding run
run_dead id [] p h lt dead = dead
run_dead id (c ∷ cs) p h lt dead =
    let grown = step-next c p (omega arith) in
    run_dead id cs (step c p) (omega arith) (omega arith) (step_dead id c p lt dead)

-- An id that was freed stays dead through any later calls, while the counter does not wrap.
pub notfree-run-freeid :
    (id : ℕ) (cs : List Call) (p : IdContainer)
    → p.next + length cs < 2 ^ 64
    → id < p.next
    → notfree id (run cs (freeid id p)) ≡ false
unfolding freeid
notfree-run-freeid id cs p h lt =
    run_dead id cs (record p { thread_id_pool = erase id p.thread_id_pool }) h lt
      (unfold notfree in ground (arith, contains-erase id id p.thread_id_pool))
