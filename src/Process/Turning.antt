-- ===== src/Process/Turning.antt =====
-- src/main.cc: a turn of one thread, and what it leaves to the others.
use threadjs_lib.Base.{ℕ, ◌≤◌, ◌<◌, ◌≢◌, inl, inr, sym, subst, ◌∙◌, ap, arith}
use threadjs_lib.ObjectMap.{ObjectMap, get}
use threadjs_lib.ObjectMap.Handles
use threadjs_lib.Life.{Thread}
use threadjs_lib.Life.Inv.{IsValid}
use threadjs_lib.Life.System
use threadjs_lib.Life.Safety.{Step-IsValid}
use threadjs_lib.Process.{Member, Process, view, moved, share}
use threadjs_lib.Process.Frame.{Foreign}
use threadjs_lib.Process.Local.{Local}
use threadjs_lib.Process.Callers.{Step-Local}
use threadjs_lib.Process.Inv.{Fits, Apart, Ok, Unmoved, Fits-Unmoved, update_at, Apart-update}

-- An id that the table has handed out is no new one.
end_apart :
    (p : Process) (a : Member) (s : Thread) (e : ℕ)
    → Local a.hm a.hs a.m (view p a) s
    → e ≤ p.world.objects.object_id
    → a.thread.sub_end ≢ e
    → s.sub_end ≢ e
end_apart p a s e k le n q = elim k.same_end [
  | inl same ↦ n (sym same ∙ q)
  | inr (new, _) ↦ omega (arith, q, new, le)
]

Local-Unmoved :
    (p : Process) (i : ℕ) (a b : Member) (s : Thread)
    → Local a.hm a.hs a.m (view p a) s
    → IsValid a.hm a.hs a.m s
    → Apart a b
    → Fits p b
    → Unmoved p (share p i (moved a s)) b
unfolding share
Local-Unmoved p i a b s k ok apart h =
    let main : Foreign a.hm a.hs a.m s.sub_end b.m = record {
      not_zero = λ e. omega (arith, e, h.main_positive);
      not_main = λ e. apart.main_main (sym e);
      not_sub = λ e. end_apart p a s b.m k h.main_below apart.sub_main (sym e);
    } in
    let sub' : b.thread.sub_end ≢ 0 → Foreign a.hm a.hs a.m s.sub_end b.thread.sub_end = λ nonzero.
      record {
        not_zero = nonzero;
        not_main = λ e. apart.main_sub (sym e);
        not_sub = λ e.
            end_apart p a s b.thread.sub_end k h.sub_below
              (λ q. apart.sub_sub (λ z. nonzero (sym q ∙ z)) q) (sym e);
      } in
    record {
      main_handle = k.frame.handle_kept b.hm (λ e. apart.hm_hm (sym e)) (λ e. apart.hs_hm (sym e));
      sub_handle = k.frame.handle_kept b.hs (λ e. apart.hm_hs (sym e)) (λ e. apart.hs_hs (sym e));
      main_end = k.frame.load_kept b.m h.main_below main;
      sub_end = λ nonzero. k.frame.load_kept b.thread.sub_end h.sub_below (sub' nonzero);
      counter = k.frame.counter;
      table = ok.table;
      named = ap (λ (t : ObjectMap ℕ). get b.thread.del_data t) k.same_handles;
      alive = k.ids_kept b.thread.thread_id apart.thread_ids;
      next = omega (arith, k.same_next);
    }

-- The thread that made the turn.
Local-Fits :
    (p : Process) (i : ℕ) (a : Member) (s : Thread)
    → Local a.hm a.hs a.m (view p a) s
    → IsValid a.hm a.hs a.m s
    → Fits p a
    → Fits (share p i (moved a s)) (moved a s)
unfolding share
Local-Fits p i a s k ok h = record {
  other = h.other;
  valid = ok;
  freed = k.freed h.freed;
  main_positive = h.main_positive;
  main_below = omega (arith, h.main_below, k.frame.counter);
  sub_below = elim k.same_end [
    | inl same ↦ omega (arith, same, h.sub_below, k.frame.counter)
    | inr (new, le) ↦ omega (arith, le)
  ];
  id_below = omega (arith, h.id_below, k.same_id, k.same_next);
}

-- It stays apart from the others, and they from it.
Local-Apart :
    (p : Process) (a b : Member) (s : Thread)
    → Local a.hm a.hs a.m (view p a) s
    → Fits p b
    → Apart a b
    → Apart b a
    → Apart (moved a s) b × Apart b (moved a s)
Local-Apart p a b s k h x y =
    let sub_main : s.sub_end ≢ b.m = end_apart p a s b.m k h.main_below x.sub_main in
    (
      record {
        hm_hm = x.hm_hm;
        hm_hs = x.hm_hs;
        hs_hm = x.hs_hm;
        hs_hs = x.hs_hs;
        main_main = x.main_main;
        main_sub = x.main_sub;
        sub_main = sub_main;
        sub_sub = λ z e.
            end_apart p a s b.thread.sub_end k h.sub_below
              (λ q. y.sub_sub (λ z'. z (e ∙ z')) (sym q)) e;
        thread_ids = λ e. x.thread_ids (sym k.same_id ∙ e);
      },
      record {
        hm_hm = y.hm_hm;
        hm_hs = y.hm_hs;
        hs_hm = y.hs_hm;
        hs_hs = y.hs_hs;
        main_main = y.main_main;
        main_sub = λ e. sub_main (sym e);
        sub_main = y.sub_main;
        sub_sub = λ z e.
            end_apart p a s b.thread.sub_end k h.sub_below (λ q. y.sub_sub z (sym q)) (sym e);
        thread_ids = λ e. y.thread_ids (e ∙ k.same_id);
      },
    )

pub turn-Unmoved :
    (p : Process) (i j : ℕ) (s : Thread)
    → i < p.size
    → j < p.size
    → i ≢ j
    → System.Step ((p.members i).hm) ((p.members i).hs) ((p.members i).m) (view p (p.members i)) s
    → Ok p
    → Unmoved p (share p i (moved (p.members i) s)) (p.members j)
turn-Unmoved p i j s lt below n step h =
    let a : Member = p.members i in
    let fit : Fits p a = h.fits i lt in
    Local-Unmoved p i a (p.members j) s
      (Step-Local a.hm a.hs a.m fit.other (view p a) s step fit.valid fit.freed)
      (Step-IsValid a.hm a.hs a.m fit.other (view p a) s step fit.valid) (h.apart i j lt below n)
      (h.fits j below)

pub turn-Ok :
    (p : Process) (i : ℕ) (s : Thread)
    → i < p.size
    → System.Step ((p.members i).hm) ((p.members i).hs) ((p.members i).m) (view p (p.members i)) s
    → Ok p
    → Ok (share p i (moved (p.members i) s))
unfolding share
turn-Ok p i s lt step h =
    let a : Member = p.members i in
    let fit : Fits p a = h.fits i lt in
    let k : Local a.hm a.hs a.m (view p a) s =
      Step-Local a.hm a.hs a.m fit.other (view p a) s step fit.valid fit.freed in
    let ok : IsValid a.hm a.hs a.m s =
      Step-IsValid a.hm a.hs a.m fit.other (view p a) s step fit.valid in
    record {
      table = ok.table;
      named = subst (λ (t : ObjectMap ℕ). Handles.IsValid t) (sym k.same_handles) h.named;
      fits = λ j below.
          update_at (Fits (share p i (moved a s))) p.members i j (moved a s)
            (λ e. Local-Fits p i a s k ok fit)
            (λ n.
              Fits-Unmoved p (share p i (moved a s)) (p.members j)
                (turn-Unmoved p i j s lt below n step h) (h.fits j below));
      apart =
          Apart-update (λ j. j < p.size) p.members i (moved a s)
            (λ j below n.
              Local-Apart p a (p.members j) s k (h.fits j below) (h.apart i j lt below n)
                (h.apart j i below lt (λ e. n (sym e))))
            (λ j j' below below' n n' n''. h.apart j j' below below' n'');
    }
