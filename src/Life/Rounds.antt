-- ===== src/Life/Rounds.antt =====
-- src/main.cc, recv_other_thread_event: the handler as the rounds of which the life of a thread has
-- one at a time.
use threadjs_lib.Base.{
  ℕ, zero, suc, ◌≡◌, ◌≢◌, refl, sym, subst, ap, ◌∙◌, Bool, true, false, List, [], ◌∷◌, ◌++◌, Option,
  none, some, arith, Option-cases, inl, inr, append_assoc, append-nil,
}
use threadjs_lib.StdMap.{find-assign_same}
use threadjs_lib.ObjectMap.{get}
use threadjs_lib.Events.{
  EventData, RecvEventData, World, load, store, next_event, get_data, recv_loop,
  recv_other_thread_event,
}
use threadjs_lib.Life.{Thread, Outcome, next, is_deleted}
use threadjs_lib.Life.{Signal, handled, is_closed}
use threadjs_lib.Base.{All, length, ◌<◌}
use threadjs_lib.Life.System.{Reach}
use threadjs_lib.Life.Inv.{IsValid, Stage, single, paired, alone, stage, WorldOk}
use threadjs_lib.Life.Safety.{Created, reached}
use threadjs_lib.Life.Calls.{receive}

abbrev pub and_next : Outcome → (Thread → Outcome) → Outcome
and_next (next s) f = f s
and_next o f = o

-- `n` rounds.
abbrev pub rounds : ℕ → ℕ → Thread → Outcome
rounds hm zero s = next s
rounds hm (suc n) s = let more = rounds hm n in and_next (receive hm s) more

-- The texts that events deliver.
abbrev pub Deliver : List EventData → List (List ℕ) → Type 0
Deliver [] [] = Unit {0}
Deliver (e ∷ es) (t ∷ ts) = (get_data e ≡ some t) × Deliver es ts
Deliver _ _ = ⊥

-- What a round takes, and what it leaves behind its handle.
abbrev Took : World → ℕ → Option EventData × World → Type 0
Took w id (none, w') = w' ≡ w
Took w id (some e, w') =
    (w'.handle_data ≡ w.handle_data) × (r : RecvEventData) × (load id w' ≡ some r)

next_event-Took :
    (id : ℕ) (w w' : World) (o : Option EventData)
    → next_event id w ≡ some (o, w')
    → Took w id (o, w')
unfolding next_event store
next_event-Took id w w' o e = elim (Option-cases (load id w)) [
  | inl gone ↦ absurd (cc (rw gone at e))
  | inr (r, there) ↦ took r there r.events (rw there at e)
]
  where
    took :
        (r : RecvEventData)
        → load id w ≡ some r
        → (es : List EventData)
        → ◌≡◌ {A = Option (Option EventData × World)}
            (elim es [
              | [] ↦ some (none, w)
              | x ∷ rest ↦ some (some x, store id (record r { events = rest }) w)
            ])
            (some (o, w'))
        → Took w id (o, w')
    took r there [] taken =
        let same : ◌≡◌ {A = Option EventData × World} (none, w) (o, w') = cc taken in
        subst (Took w id) same refl
    took r there (x ∷ rest) taken =
        let left : RecvEventData = record r { events = rest } in
        let same : ◌≡◌ {A = Option EventData × World} (some x, store id left w) (o, w') =
          cc taken in
        subst (Took w id) same (refl, left, find-assign_same id left r w.objects.pool there)

-- A handle that is open, with its endpoint in the table.
record IsOpen (hm id : ℕ) (s : Thread) : Type 0 where
  kept : is_deleted s.main_handle ≡ false
  nonzero : id ≢ 0
  handle : s.world.handle_data hm ≡ id
  endpoint : RecvEventData
  there : load id s.world ≡ some endpoint

get-IsOpen :
    (hm id : ℕ) (s : Thread) (h : IsOpen hm id s)
    → get (s.world.handle_data hm) s.world.objects ≡ some h.endpoint
unfolding get
get-IsOpen hm id s h = rw h.handle (ground (arith, h.there, h.nonzero))

receive-none :
    (hm id : ℕ) (s : Thread) (w : World)
    → IsOpen hm id s
    → next_event id s.world ≡ some (none, w)
    → receive hm s ≡ next s
unfolding receive
receive-none hm id s w h taken =
    rw (receive, h.kept) (rw (get-IsOpen hm id s h) (rw h.handle (rw taken refl)))

receive-some :
    (hm id : ℕ) (s : Thread) (e : EventData) (w : World)
    → IsOpen hm id s
    → next_event id s.world ≡ some (some e, w)
    → receive hm s ≡ next (record s { world = w; received = s.received ++ e ∷ [] })
unfolding receive
receive-some hm id s e w h taken =
    rw (receive, h.kept) (rw (get-IsOpen hm id s h) (rw h.handle (rw taken refl)))

-- Rounds that find nothing change nothing.
rounds-none :
    (hm id f : ℕ) (s : Thread) (w : World)
    → IsOpen hm id s
    → next_event id s.world ≡ some (none, w)
    → rounds hm f s ≡ next s
rounds-none hm id zero s w h taken = refl
rounds-none hm id (suc f) s w h taken =
    rw (receive-none hm id s w h taken) (rounds-none hm id f s w h taken)

abbrev pub always : List (List ℕ) → Bool
always texts = true

-- `f` rounds do what a loop with the fuel `f` does that comes to its end.
abbrev DoneIn : ℕ → ℕ → Thread → List (List ℕ) → List (List ℕ) → World → Type 0
DoneIn hm f s texts texts' w' =
    (es : List EventData) × (ts : List (List ℕ)) × (rounds hm f s
      ≡ next (record s { world = w'; received = s.received ++ es }))
    × (texts' ≡ texts ++ ts)
    × Deliver es ts

recv_loop-rounds :
    (hm id f : ℕ) (texts texts' : List (List ℕ)) (w' : World) (s : Thread)
    → IsOpen hm id s
    → recv_loop always f id texts s.world ≡ some (texts', false, w')
    → DoneIn hm f s texts texts' w'
unfolding recv_loop
recv_loop-rounds hm id zero texts texts' w' s h e = absurd (cc e)
recv_loop-rounds hm id (suc f) texts texts' w' s h e = elim (Option-cases (next_event id s.world)) [
  | inl lost ↦ absurd (cc (rw lost at e))
  | inr ((none, w), taken) ↦
      let found : ◌≡◌ {A = List (List ℕ) × Bool × World} (texts, false, w) (texts', false, w') =
        cc (rw taken at e) in
      let same : w' ≡ s.world =
        sym (ap (λ (x : List (List ℕ) × Bool × World). x.2) found)
        ∙ next_event-Took id s.world w none taken in
      (
        [],
        [],
        rounds-none hm id (suc f) s w h taken
            ∙ ap (λ x. next (record s { world = x })) (sym same)
            ∙ ap (λ es. next (record s { world = w'; received = es }))
                (sym (append-nil s.received)),
        sym (append-nil texts ∙ ap (λ (x : List (List ℕ) × Bool × World). x.0) found),
        tt,
      )
  | inr ((some x, w), taken) ↦ elim (Option-cases (get_data x)) [
    | inl blank ↦ absurd (cc (rw (taken, blank) at e))
    | inr (t, delivered) ↦
        let (same, r, left) = next_event-Took id s.world w (some x) taken in
        let s₁ : Thread = record s { world = w; received = s.received ++ x ∷ [] } in
        let h₁ : IsOpen hm id s₁ = record {
          kept = h.kept;
          nonzero = h.nonzero;
          handle = ap (λ g. g hm) same ∙ h.handle;
          endpoint = r;
          there = left;
        } in
        let (es, ts, ran, grown, deliver) =
          recv_loop-rounds hm id f (texts ++ t ∷ []) texts' w' s₁ h₁ (rw (taken, delivered) at e) in
        (
          x ∷ es,
          t ∷ ts,
          rw (receive-some hm id s x w h taken) (
              ran
              ∙ ap (λ l. next (record s { world = w'; received = l }))
                  (append_assoc s.received (x ∷ []) es)),
          grown ∙ append_assoc texts (t ∷ []) ts,
          (delivered, deliver),
        )
  ]
]

-- An event that has its NUL.
abbrev pub IsReadable : EventData → Type 0
IsReadable e = (t : List ℕ) × (get_data e ≡ some t)

-- With more fuel than there are messages, each of them readable, the loop comes to its end.
recv_loop-total :
    (id f : ℕ) (texts : List (List ℕ)) (w : World) (r : RecvEventData) (es : List EventData)
    → load id w ≡ some (record r { events = es })
    → All IsReadable es
    → length es < f
    → (texts' : List (List ℕ)) × (w' : World) × (recv_loop always f id texts w
        ≡ some (texts', false, w'))
unfolding recv_loop next_event store
recv_loop-total id zero texts w r es there ok lt = elim lt [ ]
recv_loop-total id (suc f) texts w r [] there ok lt = (texts, w, rw there refl)
recv_loop-total id (suc f) texts w r (x ∷ es) there ((t, delivered), ok) lt =
    let left : RecvEventData = record r { events = es } in
    let (texts', w', looped) =
      recv_loop-total id f (texts ++ t ∷ []) (store id left w) r es
        (find-assign_same id left _ w.objects.pool there) ok (omega arith) in
    (texts', w', rw there (rw delivered looped))

not_closed : (d : Signal) → d ≢ handled → is_closed d ≡ false
not_closed handled h = absurd (h refl)
not_closed d h = refl

main_there :
    (hm hs m s : ℕ) (st : Stage) (q : List EventData) (w : World)
    → WorldOk hm hs m st s q w
    → (m ≢ 0) × (w.handle_data hm ≡ m) × (r : RecvEventData) × (load m w ≡ some r)
main_there hm hs m s single q w (p, h) = (h.0, h.1, _, h.2)
main_there hm hs m s paired q w (a, u, h) = (h.main_not_zero, h.main_handle, _, h.main_end)
main_there hm hs m s alone q w (h, gone) = (h.0, h.1, _, h.2)

-- The endpoint of main_event is there until the handler of del_event has run.
Inv-IsOpen : (hm hs m : ℕ) (s : Thread) → IsValid hm hs m s → s.del_event ≢ handled → IsOpen hm m s
Inv-IsOpen hm hs m s h open' =
    let still : is_closed s.del_event ≡ false = not_closed s.del_event open' in
    let (nonzero, handle, r, there) =
      main_there hm hs m s.sub_end (stage s.phase) h.queue s.world (h.world_ok still) in
    record {
      kept = h.main_ok ∙ still;
      nonzero = nonzero;
      handle = handle;
      endpoint = r;
      there = there;
    }

-- Before the handler of del_event of a thread with an id below 2^32 has run, and while _recv of the
-- maker is a function, a call of the handler of main_event with more fuel than there are messages,
-- each of them with its NUL, comes to its end, leaves the endpoints as that many single rounds do,
-- and calls _recv with the texts of the messages that these take, in order.
pub recv_other_thread_event-rounds :
    (hm hs m f : ℕ) (s s' : Thread) (r : RecvEventData)
    → Created hm hs m s
    → Reach hm hs m s s'
    → s'.del_event ≢ handled
    → load m s'.world ≡ some r
    → All IsReadable r.events
    → length r.events < f
    → (texts : List (List ℕ)) × (es : List EventData) × (w' : World) × (recv_other_thread_event
          always f hm s'.world
        ≡ some (texts, false, w'))
      × (rounds hm f s' ≡ next (record s' { world = w'; received = s'.received ++ es }))
      × Deliver es texts
unfolding recv_other_thread_event
recv_other_thread_event-rounds hm hs m f s s' r k reach open' there ok lt =
    let h = Inv-IsOpen hm hs m s' (reached hm hs m s k s' reach) open' in
    let (texts, w', looped) = recv_loop-total m f [] s'.world r r.events there ok lt in
    let (es, ts, ran, same, deliver) = recv_loop-rounds hm m f [] texts w' s' h looped in
    (
      texts,
      es,
      w',
      rw (recv_other_thread_event, get-IsOpen hm m s' h) (rw h.handle looped),
      ran,
      subst (Deliver es) (sym same) deliver,
    )
