-- ===== src/Process/Inv.antt =====
-- src/main.cc: what is true of a process at every point, and that a turn of a thread keeps it.
use threadjs_lib.Base.{
  ℕ, ◌≤◌, ◌<◌, ◌==◌, ◌≡◌, ◌≢◌, inl, inr, sym, ◌∙◌, List, arith, Bool-cases, ==_iff,
}
use threadjs_lib.IdContainer.{contains}
use threadjs_lib.ObjectMap.{get}
use threadjs_lib.ObjectMap.Handles
use threadjs_lib.Events.{EventData, load}
use threadjs_lib.Life.Inv.{Stage, single, paired, alone, WorldOk, IsValid}
use threadjs_lib.Life.Table.{TableOk}
use threadjs_lib.Process.{Member, Process, view, update}
use threadjs_lib.Process.Local.{Freed}

-- A thread that is valid as it sees what it shares, with ids that were handed out.
pub record Fits (p : Process) (a : Member) : Type 0 where
  pub other : a.hm ≢ a.hs
  pub valid : IsValid a.hm a.hs a.m (view p a)
  pub freed : Freed a.hm a.hs a.m (view p a)
  pub main_positive : 0 < a.m
  pub main_below : a.m ≤ p.world.objects.object_id
  pub sub_below : a.thread.sub_end ≤ p.world.objects.object_id
  pub id_below : a.thread.thread_id < p.ids.next

-- Two threads that have nothing in common.
pub record Apart (a b : Member) : Type 0 where
  pub hm_hm : a.hm ≢ b.hm
  pub hm_hs : a.hm ≢ b.hs
  pub hs_hm : a.hs ≢ b.hm
  pub hs_hs : a.hs ≢ b.hs
  pub main_main : a.m ≢ b.m
  pub main_sub : a.m ≢ b.thread.sub_end
  pub sub_main : a.thread.sub_end ≢ b.m
  pub sub_sub : a.thread.sub_end ≢ 0 → a.thread.sub_end ≢ b.thread.sub_end
  pub thread_ids : a.thread.thread_id ≢ b.thread.thread_id

pub record Ok (p : Process) : Type 0 where
  pub table : TableOk p.world
  pub named : Handles.IsValid p.handles
  pub fits : (i : ℕ) → i < p.size → Fits p (p.members i)
  pub apart : (i j : ℕ) → i < p.size → j < p.size → i ≢ j → Apart (p.members i) (p.members j)

-- What is shared is the same to the member `b` in `q` as in `p`.
pub record Unmoved (p q : Process) (b : Member) : Type 0 where
  pub main_handle : q.world.handle_data b.hm ≡ p.world.handle_data b.hm
  pub sub_handle : q.world.handle_data b.hs ≡ p.world.handle_data b.hs
  pub main_end : load b.m q.world ≡ load b.m p.world
  pub sub_end : b.thread.sub_end ≢ 0 → load b.thread.sub_end q.world ≡ load b.thread.sub_end p.world
  pub counter : p.world.objects.object_id ≤ q.world.objects.object_id
  pub table : TableOk q.world
  pub named : get b.thread.del_data q.handles ≡ get b.thread.del_data p.handles
  pub alive :
      contains b.thread.thread_id q.ids.thread_id_pool
      ≡ contains b.thread.thread_id p.ids.thread_id_pool
  pub next : p.ids.next ≤ q.ids.next

WorldOk-Unmoved :
    (p q : Process) (b : Member) (st : Stage) (u : List EventData)
    → Unmoved p q b
    → WorldOk b.hm b.hs b.m st b.thread.sub_end u p.world
    → WorldOk b.hm b.hs b.m st b.thread.sub_end u q.world
WorldOk-Unmoved p q b single u k (e, h) = (e, (h.0, k.main_handle ∙ h.1, k.main_end ∙ h.2))
WorldOk-Unmoved p q b alone u k (h, gone) =
    ((h.0, k.main_handle ∙ h.1, k.main_end ∙ h.2), k.sub_handle ∙ gone)
WorldOk-Unmoved p q b paired u k (a, e, h) = (
  a,
  e,
  record {
    apart_ids = h.apart_ids;
    main_not_zero = h.main_not_zero;
    sub_not_zero = h.sub_not_zero;
    main_handle = k.main_handle ∙ h.main_handle;
    sub_handle = k.sub_handle ∙ h.sub_handle;
    main_end = k.main_end ∙ h.main_end;
    sub_end = k.sub_end h.sub_not_zero ∙ h.sub_end;
  },
)

pub Fits-Unmoved : (p q : Process) (b : Member) → Unmoved p q b → Fits p b → Fits q b
Fits-Unmoved p q b k h = record {
  other = h.other;
  valid = record {
    queue = h.valid.queue;
    req_ok = h.valid.req_ok;
    object_ok = h.valid.object_ok;
    id_ok = k.alive ∙ h.valid.id_ok;
    loop_ok = h.valid.loop_ok;
    sub_ok = h.valid.sub_ok;
    early_ok = h.valid.early_ok;
    late_ok = h.valid.late_ok;
    main_ok = h.valid.main_ok;
    named = k.named ∙ h.valid.named;
    table = k.table;
    world_ok = λ d. WorldOk-Unmoved p q b _ h.valid.queue k (h.valid.world_ok d);
    delivered = h.valid.delivered;
    posted_ok = h.valid.posted_ok;
  };
  freed = λ d. k.main_end ∙ h.freed d;
  main_positive = h.main_positive;
  main_below = omega (arith, h.main_below, k.counter);
  sub_below = omega (arith, h.sub_below, k.counter);
  id_below = omega (arith, h.id_below, k.next);
}

-- What holds of the new member and of the others holds at every place.
pub update_at {ℓ} :
    (P : Member → Type ℓ) (f : ℕ → Member) (i j : ℕ) (a : Member)
    → (i ≡ j → P a)
    → (i ≢ j → P (f j))
    → P (update f i a j)
update_at P f i j a here elsewhere = elim (Bool-cases (i == j)) [
  | inl hit ↦ rw hit (here ((==_iff i j).0 hit))
  | inr miss ↦ rw miss (elsewhere (λ e. cc ((==_iff i j).1 e)))
]

-- The same for two members that stand apart.
pub Apart-update :
    (Q : ℕ → Type 0) (f : ℕ → Member) (i : ℕ) (a : Member)
    → ((j : ℕ) → Q j → i ≢ j → Apart a (f j) × Apart (f j) a)
    → ((j k : ℕ) → Q j → Q k → i ≢ j → i ≢ k → j ≢ k → Apart (f j) (f k))
    → (j k : ℕ) → Q j
    → Q k
    → j ≢ k
    → Apart (update f i a j) (update f i a k)
Apart-update Q f i a new old j k q q' n =
    update_at (λ x. Apart x (update f i a k)) f i j a
      (λ e. update_at (Apart a) f i k a (λ e'. absurd (n (sym e ∙ e'))) (λ n'. (new k q' n').0))
      (λ n'. update_at (Apart (f j)) f i k a (λ e. (new j q n').1) (λ n''. old j k q q' n' n'' n))
