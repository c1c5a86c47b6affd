-- ===== src/Life/Endpoints.antt =====
-- src/main.cc, create_uv_async and bind_peer_event: the endpoints of a thread, from their making.
use threadjs_lib.Base.{
  ℕ, ◌+◌, ◌<◌, ◌≤◌, ◌==◌, ◌≡◌, ◌≢◌, subst, [], none, some, arith, Bool-cases, inl, inr,
  if◌then◌else◌, ltb,
}
use threadjs_lib.StdMap.{insert, insert-AllKeys, find-AllKeys, find-insert_new}
use threadjs_lib.ObjectMap.{put, int_max}
use threadjs_lib.ObjectMap.Handles
use threadjs_lib.Events.{RecvEventData, World, load, create_uv_async, bind_peer_event}
use threadjs_lib.Events.Channel.{apart, Represents, step, binds, step-Refines}
use threadjs_lib.Life.Inv.{single, paired, MainAt, WorldOk}
use threadjs_lib.Life.Table.{TableOk}
use threadjs_lib.Events.Channel.{stepped_world}

module _ (hm hs m : ℕ) where
  -- The endpoint of the thread, made and bound.
  module _ (w : World) (other : hm ≢ hs) (table : TableOk w)
      (ok : WorldOk hm hs m single 0 [] w) where
    abbrev made_world : World
    made_world = record w {
      objects = record {
        pool =
            insert (w.objects.object_id + 1)
              (record { not_send = some []; events = []; peer = none }) w.objects.pool;
        object_id = w.objects.object_id + 1;
      };
      handle_data = λ k. if hs == k then w.objects.object_id + 1 else w.handle_data k;
    }

    below : (0 < m) × (m ≤ w.objects.object_id)
    below = find-AllKeys _ m w.objects.pool table ok.1.2

    looked_up :
        (j : ℕ)
        → load j made_world ≡ (
            if w.objects.object_id + 1 == j
            then some (record { not_send = some []; events = []; peer = none })
            else load j w)
    looked_up j =
        find-insert_new (w.objects.object_id + 1) j _ w.objects.pool
          (Handles.find_above w.objects.object_id _ w.objects.pool table (omega arith))

    made_Represents : Represents m (w.objects.object_id + 1) hm hs made_world (apart ok.0 [])
    made_Represents = record {
      apart_ids = λ e. omega (arith, e, below.1);
      main_not_zero = ok.1.0;
      sub_not_zero = λ e. omega (arith, e);
      main_handle = ground (arith, ok.1.1);
      sub_handle = ground arith;
      main_end = ground (arith, looked_up m, below.1, ok.1.2);
      sub_end = ground (arith, looked_up (w.objects.object_id + 1));
    }

    made_TableOk : TableOk made_world
    made_TableOk =
        insert-AllKeys (Handles.Below (w.objects.object_id + 1)) (w.objects.object_id + 1) _
          w.objects.pool (omega arith, omega arith)
          (Handles.Below-mono w.objects.object_id w.objects.pool table)

    made_bound :
        (w' : World) × (bind_peer_event hm hs made_world ≡ some w')
        × WorldOk hm hs m paired (w.objects.object_id + 1) [] w'
    unfolding step
    made_bound =
        let (w', stepped, h') =
          step-Refines m (w.objects.object_id + 1) hm hs binds made_world (apart ok.0 [])
            made_Represents in
        (w', stepped_world (bind_peer_event hm hs made_world) w' stepped, (ok.0, [], h'))

    pub create_uv_async-paired :
        (w₁ : World) (id : ℕ)
        → create_uv_async hs w ≡ some (id, w₁)
        → TableOk w₁
          × (w' : World) × (bind_peer_event hm hs w₁ ≡ some w')
          × WorldOk hm hs m paired id [] w'
    unfolding create_uv_async put
    create_uv_async-paired w₁ id made = elim (Bool-cases (ltb w.objects.object_id int_max)) [
      | inr full ↦ cc (rw full at made)
      | inl room ↦
          let same : ◌≡◌ {A = ℕ × World} (w.objects.object_id + 1, made_world) (id, w₁) =
            cc (rw room at made) in
          subst
            (λ (x : ℕ × World).
              TableOk x.1
              × (w' : World) × (bind_peer_event hm hs x.1 ≡ some w')
              × WorldOk hm hs m paired x.0 [] w')
            same (made_TableOk, made_bound.0, made_bound.1, made_bound.2)
    ]

-- The endpoint of the main side, made.
pub create_uv_async-single :
    (hm hs id : ℕ) (w w' : World)
    → TableOk w
    → create_uv_async hm w ≡ some (id, w')
    → TableOk w' × MainAt hm hs id (some []) none [] w'
unfolding create_uv_async put
create_uv_async-single hm hs id w w' table made =
    elim (Bool-cases (ltb w.objects.object_id int_max)) [
      | inr full ↦ cc (rw full at made)
      | inl room ↦
          let same : ◌≡◌ {A = ℕ × World} (new, first) (id, w') = cc (rw room at made) in
          subst (λ (x : ℕ × World). TableOk x.1 × MainAt hm hs x.0 (some []) none [] x.1) same
            (
              insert-AllKeys (Handles.Below new) new blank w.objects.pool (omega arith, omega arith)
                  (Handles.Below-mono w.objects.object_id w.objects.pool table),
              (
                λ e. omega (arith, e),
                ground arith,
                ground (
                  arith,
                  find-insert_new new new blank w.objects.pool (
                      Handles.find_above w.objects.object_id new w.objects.pool table
                        (omega arith)),
                ),
              ),
            )
    ]
  where
    new : ℕ
    new = w.objects.object_id + 1

    blank : RecvEventData
    blank = record { not_send = some []; events = []; peer = none }

    first : World
    first = record w {
      objects = record { pool = insert new blank w.objects.pool; object_id = new };
      handle_data = λ k. if hm == k then new else w.handle_data k;
    }
