-- ===== src/Process/Making.antt =====
-- src/main.cc, j_create: what a new thread leaves to the others.
use threadjs_lib.Base.{
  ℕ, ◌+◌, ◌<◌, ◌^◌, ◌==◌, ◌≡◌, ◌≢◌, inl, inr, refl, sym, subst, ◌∙◌, Bool, false, some, arith,
  Option-cases, Bool-cases, ltb, ==_iff,
}
use threadjs_lib.IdContainer.{IdContainer, contains, newid_object, newid, setid}
use threadjs_lib.IdContainer.Lifetime.{contains-insert}
use threadjs_lib.StdMap.{insert-AllKeys}
use threadjs_lib.ObjectMap.{ObjectMap, get, put, int_max}
use threadjs_lib.ObjectMap.Handles
use threadjs_lib.Events.{World, create_uv_async}
use threadjs_lib.Life.{Thread, is_closed}
use threadjs_lib.Life.Calls.{create, started, new_req}
use threadjs_lib.Life.Creation.{create-IsValid}
use threadjs_lib.Life.Inv.{IsValid}
use threadjs_lib.Life.Table.{TableOk}
use threadjs_lib.Process.{Member, Process, New, share, join}
use threadjs_lib.Process.Frame.{Frame}
use threadjs_lib.Process.Binding.{Made, create_uv_async-Made}
use threadjs_lib.Process.Inv.{Fits, Apart, Ok, Unmoved, Fits-Unmoved, update_at, Apart-update}

put-IsValid :
    (x id : ℕ) (t t' : ObjectMap ℕ)
    → Handles.IsValid t
    → put (some x) t ≡ some (id, t')
    → Handles.IsValid t'
unfolding put
put-IsValid x id t t' h e = elim (Bool-cases (ltb t.object_id int_max)) [
  | inr full ↦ cc (rw full at e)
  | inl room ↦
      let new : ℕ = t.object_id + 1 in
      let same : ◌≡◌ {A = ℕ × ObjectMap ℕ}
          (new, record { pool = threadjs_lib.StdMap.insert new x t.pool; object_id = new })
          (id, t') =
        cc (rw room at e) in
      subst (λ (y : ℕ × ObjectMap ℕ). Handles.IsValid y.1) same
        (insert-AllKeys (Handles.Below new) new x t.pool (omega arith, omega arith)
          (Handles.Below-mono t.object_id t.pool h))
]

put-kept :
    (x id k h : ℕ) (t t' : ObjectMap ℕ)
    → Handles.IsValid t
    → put (some x) t ≡ some (id, t')
    → get k t ≡ some h
    → get k t' ≡ some h
put-kept x id k h t t' v e got =
    let (nonzero, fresh, now) = Handles.get-put x k id t t' v e in
    elim (Bool-cases (id == k)) [
      | inl hit ↦ let same : id ≡ k = (==_iff id k).0 hit in cc (fresh, got, same)
      | inr miss ↦ now ∙ rw miss got
    ]

-- What j_create makes of what is shared.
record Creates (hm hs m : ℕ) (w : World) (handles : ObjectMap ℕ) (ids : IdContainer) (s : Thread)
    : Type 0 where
  new_main : m ≡ w.objects.object_id + 1
  frame : Frame hm hs m 0 w s.world
  above : s.world.objects.object_id ≡ m
  open_still : is_closed s.del_event ≡ false
  no_sub : s.sub_end ≡ 0
  new_id : s.thread_id ≡ ids.next
  next : s.ids.next ≡ ids.next + 1
  alive : (k : ℕ) → ids.next ≢ k → contains k s.ids.thread_id_pool ≡ contains k ids.thread_id_pool
  named : Handles.IsValid s.handles
  handles_kept : (k : ℕ) (h : ℕ) → get k handles ≡ some h → get k s.handles ≡ some h

create-Creates :
    (hm hs m : ℕ) (node : Bool) (w : World) (handles : ObjectMap ℕ) (ids : IdContainer) (s : Thread)
    → TableOk w
    → Handles.IsValid handles
    → ids.next < 2 ^ 32
    → create hm node w handles ids ≡ some (m, s)
    → Creates hm hs m w handles ids s
unfolding create started new_req newid_object newid setid
create-Creates hm hs m node w handles ids s table named room made =
    elim (Option-cases (create_uv_async hm w)) [
      | inl full ↦ cc (rw full at made)
      | inr ((m', w'), first) ↦ elim (Option-cases (put (some hm) handles)) [
        | inl full ↦ cc (rw (first, full) at made)
        | inr ((del_data, handles'), second) ↦
            let same : ◌≡◌ {A = ℕ × Thread}
                (
                  m',
                  started (new_req node) ids.next (setid ids.next) (newid ids).1 w' del_data
                      handles',
                )
                (m, s) =
              cc (rw (first, second) at made) in
            let (new, counter, here, elsewhere, f) =
              subst (Made hm hs m' 0 hm w) first
                (create_uv_async-Made hm hs m' 0 hm w table (λ k n n' q. n (sym q))) in
            subst (λ (x : ℕ × Thread). Creates hm hs x.0 w handles ids x.1) same
              (record {
                new_main = new;
                frame = f;
                above = counter ∙ sym new;
                open_still = refl;
                no_sub = refl;
                new_id = refl;
                next = omega arith;
                alive = λ k n. ground (arith, n, contains-insert ids.next k ids.thread_id_pool);
                named = put-IsValid hm del_data handles handles' named second;
                handles_kept =
                    λ k h got. put-kept hm del_data k h handles handles' named second got;
              })
      ]
    ]

-- The new thread stands apart from those that there are.
Creates-Apart :
    (p : Process) (a b : Member)
    → Creates a.hm a.hs a.m p.world p.handles p.ids a.thread
    → (b.hm ≢ a.hm) × (b.hs ≢ a.hm)
    → (b.hm ≢ a.hs) × (b.hs ≢ a.hs)
    → Fits p b
    → Apart a b × Apart b a
Creates-Apart p a b k (mm, sm) (ms, ss) h = (
  record {
    hm_hm = λ e. mm (sym e);
    hm_hs = λ e. sm (sym e);
    hs_hm = λ e. ms (sym e);
    hs_hs = λ e. ss (sym e);
    main_main = λ e. omega (arith, e, k.new_main, h.main_below);
    main_sub = λ e. omega (arith, e, k.new_main, h.sub_below);
    sub_main = λ e. omega (arith, e, k.no_sub, h.main_positive);
    sub_sub = λ z. absurd (z k.no_sub);
    thread_ids = λ e. omega (arith, e, k.new_id, h.id_below);
  },
  record {
    hm_hm = mm;
    hm_hs = ms;
    hs_hm = sm;
    hs_hs = ss;
    main_main = λ e. omega (arith, e, k.new_main, h.main_below);
    main_sub = λ e. omega (arith, e, k.no_sub, h.main_positive);
    sub_main = λ e. omega (arith, e, k.new_main, h.sub_below);
    sub_sub = λ z e. z (e ∙ k.no_sub);
    thread_ids = λ e. omega (arith, e, k.new_id, h.id_below);
  },
)

Creates-Unmoved :
    (p : Process) (a b : Member)
    → Creates a.hm a.hs a.m p.world p.handles p.ids a.thread
    → TableOk a.thread.world
    → (b.hm ≢ a.hm) × (b.hs ≢ a.hm)
    → (b.hm ≢ a.hs) × (b.hs ≢ a.hs)
    → Fits p b
    → Unmoved p (join p a) b
unfolding join share
Creates-Unmoved p a b k table (mm, sm) (ms, ss) h = record {
  main_handle = k.frame.handle_kept b.hm mm ms;
  sub_handle = k.frame.handle_kept b.hs sm ss;
  main_end = k.frame.load_kept b.m h.main_below (record {
    not_zero = λ e. omega (arith, e, h.main_positive);
    not_main = λ e. omega (arith, e, k.new_main, h.main_below);
    not_sub = λ e. omega (arith, e, h.main_positive);
  });
  sub_end = λ nonzero. k.frame.load_kept b.thread.sub_end h.sub_below (record {
    not_zero = nonzero;
    not_main = λ e. omega (arith, e, k.new_main, h.sub_below);
    not_sub = nonzero;
  });
  counter = k.frame.counter;
  table = table;
  named = k.handles_kept _ _ h.valid.named ∙ sym h.valid.named;
  alive = k.alive b.thread.thread_id (λ e. omega (arith, e, h.id_below));
  next = omega (arith, k.next);
}

pub join-Ok :
    (p : Process) (node : Bool) (a : Member)
    → a.hm ≢ a.hs
    → New p a.hm
    → New p a.hs
    → p.ids.next < 2 ^ 32
    → create a.hm node p.world p.handles p.ids ≡ some (a.m, a.thread)
    → Ok p
    → Ok (join p a)
unfolding join share
join-Ok p node a other new new' room made h =
    let k : Creates a.hm a.hs a.m p.world p.handles p.ids a.thread =
      create-Creates a.hm a.hs a.m node p.world p.handles p.ids a.thread h.table h.named room
        made in
    let ok : IsValid a.hm a.hs a.m a.thread =
      create-IsValid a.hm a.hs a.m node p.world p.handles p.ids a.thread h.table h.named room
        made in
    record {
      table = ok.table;
      named = k.named;
      fits = λ j below.
          update_at (Fits (join p a)) p.members p.size j a
            (λ e. record {
              other = other;
              valid = ok;
              freed = λ closed. cc (k.open_still);
              main_positive = omega (arith, k.new_main);
              main_below = omega (arith, k.above);
              sub_below = omega (arith, k.no_sub);
              id_below = omega (arith, k.new_id, k.next);
            })
            (λ n.
              let lt : j < p.size = omega (arith, below, n) in
              Fits-Unmoved p (join p a) (p.members j)
                (Creates-Unmoved p a (p.members j) k ok.table (new.not_main j lt, new.not_sub j lt)
                  (new'.not_main j lt, new'.not_sub j lt) (h.fits j lt))
                (h.fits j lt));
      apart =
          Apart-update (λ j. j < p.size + 1) p.members p.size a
            (λ j below n.
              let lt : j < p.size = omega (arith, below, n) in
              Creates-Apart p a (p.members j) k (new.not_main j lt, new.not_sub j lt)
                (new'.not_main j lt, new'.not_sub j lt) (h.fits j lt))
            (λ j j' below below' n n' n''.
              h.apart j j' (omega (arith, below, n)) (omega (arith, below', n')) n'');
    }
