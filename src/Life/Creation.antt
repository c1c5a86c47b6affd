-- ===== src/Life/Creation.antt =====
-- src/main.cc, j_create: what is true of a thread that it made.
use threadjs_lib.Base.{ℕ, ◌<◌, ◌^◌, ◌≡◌, refl, subst, Bool, [], some, arith, Option-cases, inl, inr}
use threadjs_lib.IdContainer.{IdContainer, newid_object, newid, setid}
use threadjs_lib.IdContainer.Lifetime.{contains-insert}
use threadjs_lib.ObjectMap.{ObjectMap, put}
use threadjs_lib.ObjectMap.Handles
use threadjs_lib.Events.{World, create_uv_async}
use threadjs_lib.Life.{Thread}
use threadjs_lib.Life.Calls.{create, started, new_req}
use threadjs_lib.Life.Inv.{IsValid}
use threadjs_lib.Life.Table.{TableOk}
use threadjs_lib.Life.Endpoints.{create_uv_async-single}

pub create-IsValid :
    (hm hs m : ℕ) (node : Bool) (w : World) (handles : ObjectMap ℕ) (ids : IdContainer) (s : Thread)
    → TableOk w
    → Handles.IsValid handles
    → ids.next < 2 ^ 32
    → create hm node w handles ids ≡ some (m, s)
    → IsValid hm hs m s
unfolding create started new_req newid_object newid setid
create-IsValid hm hs m node w handles ids s table named room made =
    elim (Option-cases (create_uv_async hm w)) [
      | inl full ↦ cc (rw full at made)
      | inr ((m', w'), first) ↦ elim (Option-cases (put (some hm) handles)) [
        | inl full ↦ cc (rw (first, full) at made)
        | inr ((del_data, handles'), second) ↦
            let same : ◌≡◌ {A = ℕ × Thread}
                (
                  m',
                  started (new_req node) ids.next (setid ids.next) (newid ids).1 w' del_data
                      handles',
                )
                (m, s) =
              cc (rw (first, second) at made) in
            let (table', main) = create_uv_async-single hm hs m' w w' table first in
            subst (λ (x : ℕ × Thread). IsValid hm hs x.0 x.1) same
              (record {
                queue = [];
                req_ok = (refl, refl);
                object_ok = ground arith;
                id_ok = ground (arith, contains-insert ids.next ids.next ids.thread_id_pool);
                loop_ok = λ d. cc;
                sub_ok = λ d. cc;
                early_ok = λ d. refl;
                late_ok = λ d. cc;
                main_ok = refl;
                named =
                    ground (
                      arith,
                      (Handles.get-put hm del_data del_data handles handles' named second).2,
                    );
                table = table';
                world_ok = λ d. ([], main);
                delivered = refl;
                posted_ok = refl;
              })
      ]
    ]
