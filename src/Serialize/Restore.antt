-- ===== src/Serialize/Restore.antt =====
-- `restore` of src/serialize.cc on what create_data_with_type made of a tree.
use threadjs_lib.Base.{refl, ap, List, [], ◌∷◌, ◌++◌, length, append-nil}
use threadjs_lib.Serialize.{restore, restore_items, restore_fields, count}
use threadjs_lib.Serialize.Heaps.{Fresh, Fresh-append}
use threadjs_lib.Serialize.Values.{
  string, date, regexp, Value, ref, array, object, Key, name, Heap, holes, undefined,
}
use threadjs_lib.Serialize.Trees.{
  Tree, Trees, Props, Named, NamedItems, NamedProps, saved, saved_items, saved_props, copied,
  copied_items, copied_props, t_undefined, t_null, t_symbol, t_function, t_boolean,
  t_boolean_object, t_string, t_string_object, t_number, t_number_object, t_date, t_regexp, t_array,
  t_object, no_trees, tree, no_props, prop,
}
use threadjs_lib.Serialize.Scalars.{text_back, number_back}
use threadjs_lib.Serialize.Turns.{
  Gives, GivesItems, GivesProps, bare, boxed, add_item, add_prop, Gives-array, Gives-object,
  item_turn, prop_turn,
}

mutual
  unfolding restore saved copied

  pub restore_tree : (t : Tree) (h : Heap) → Named t → Gives (restore (saved t) h) h (copied t)
  restore_tree t_undefined h ok = bare _ h t_undefined refl
  restore_tree t_null h ok = bare _ h t_null refl
  restore_tree t_symbol h ok = bare _ h t_null refl
  restore_tree t_function h ok = bare _ h t_null refl
  restore_tree (t_boolean b) h ok = bare _ h (t_boolean b) refl
  restore_tree (t_boolean_object b) h ok = bare _ h (t_boolean b) refl
  restore_tree (t_string s) h ok = bare _ h (t_string s) (ap string (text_back s))
  restore_tree (t_string_object s) h ok = bare _ h (t_string s) (ap string (text_back s))
  restore_tree (t_number n) h ok = rw (number_back n h) (bare _ h (t_number n) refl)
  restore_tree (t_number_object n) h ok = bare _ h (t_number n) refl
  restore_tree (t_date n) h ok = (ref (length h), date n ∷ [], refl, boxed _ h)
  restore_tree (t_regexp s fl) h ok =
      (ref (length h), regexp s fl ∷ [], rw (text_back s) refl, boxed _ h)
  restore_tree (t_array ts) h ok = Gives-array h (copied_items ts) _ (restore_trees ts h [] [] ok)
  restore_tree (t_object fs) h ok =
      Gives-object h (copied_props fs) _ (restore_props fs h [] [] ok tt)

  restore_trees :
      (ts : Trees) (h more : Heap) (vs : List Value)
      → NamedItems ts
      → GivesItems h more vs (copied_items ts) (
          restore_items
            (saved_items ts)
            (length h)
            (length vs)
            (h ++ array (vs ++ holes (count (saved_items ts))) ∷ more))
  restore_trees no_trees h more vs ok = ([], [], rw (append-nil more) refl, refl)
  restore_trees (tree t ts) h more vs ok =
      let (v, new, e, view) =
        restore_tree t (h ++ array (vs ++ undefined ∷ holes (count (saved_items ts))) ∷ more)
          ok.0 in
      rw (e, item_turn h more new vs (holes (count (saved_items ts))) undefined v (saved_items ts))
        (add_item h more new vs v (copied t) (copied_items ts) _ _ view
          (restore_trees ts h (more ++ new) (vs ++ v ∷ []) ok.1))

  restore_props :
      (fs : Props) (h more : Heap) (ps : List (Key × Value))
      → NamedProps fs
      → Fresh ps fs
      → GivesProps h more ps
          (copied_props fs)
          (restore_fields (saved_props fs) (length h) (h ++ object ps ∷ more))
  restore_props no_props h more ps ok new = ([], [], rw (append-nil more, append-nil ps) refl, refl)
  restore_props (prop s t fs) h more ps (clean, apart, named, others) new_names =
      let (v, new, e, view) = restore_tree t (h ++ object ps ∷ more) named in
      rw (e, prop_turn h more new s t fs v ps (saved_props fs) clean new_names)
        (add_prop h more new ps s v (copied t) (copied_props fs) _ _ view (
          restore_props fs h (more ++ new) (ps ++ (name s, v) ∷ []) others
            (Fresh-append s t fs v ps new_names apart)))
