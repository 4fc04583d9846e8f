-- ===== src/Event/ObjectCache.antt =====
-- The object side of an event's cache, and of its questions to the trust database.
use rhel_fapolicyd.Attr.{ObjType, all_obj, path, odir, device, ftype, obj_trust, file_hash, fmode}
use rhel_fapolicyd.AttrSets.Tree.{Avl}
use rhel_fapolicyd.Base.{◌≡◌, refl, sym, inl, inr, Option, none, some, Option-cases, Bytes}
use rhel_fapolicyd.Process.{FileInfo}
use rhel_fapolicyd.Event.{Env, Event, new_obj}
use rhel_fapolicyd.Event.Cache.{
  Extends, Extends-objects, Extends-refl, Extends-trans, object_add-CarriesObjects,
}
use rhel_fapolicyd.Event.Objects.{
  add_obj, look_up_file, get_path, look_up_trust, look_up_hash, look_up_obj, get_obj_attr,
}
use rhel_fapolicyd.Subject.{ObjAttr, object_access, object_find_file}

module _ {T : Type 0} ⦃avl : Avl T⦄ (env : Env T) where
  -- A lookup: the event only grows, and the answer is what its array then holds.
  abbrev pub Found : Event T → ObjType → Event T × Option (ObjAttr T) → Type 0
  Found e t r = Extends e r.0 × (r.1 ≡ object_access r.0.o t)

  Found-missing : (e : Event T) (t : ObjType) → object_access e.o t ≡ none → Found e t (e, none)
  Found-missing e t h = (Extends-refl e, sym h)

  Found-present :
      (e : Event T) (t : ObjType) (a : ObjAttr T)
      → object_access e.o t ≡ some a
      → Found e t (e, some a)
  Found-present e t a h = (Extends-refl e, sym h)

  Found-after :
      (e e' : Event T) (t : ObjType) (r : Event T × Option (ObjAttr T))
      → Extends e e'
      → Found e' t r
      → Found e t r
  Found-after e e' t r x (y, same) = (Extends-trans e e' r.0 x y, same)

  add_obj-Found : (e : Event T) (attr : ObjAttr T) → Found e attr.type (add_obj e attr)
  unfolding add_obj
  add_obj-Found e attr = (Extends-objects e _ (object_add-CarriesObjects e.o attr), refl)

  -- The file's record is not an attribute.
  Extends-info :
      (e : Event T) (info : FileInfo) → Extends e (record e { o = record (e.o) { info = info } })
  unfolding object_access
  Extends-info e info = Extends-objects e _ (λ t a h. (a, h))

  look_up_file-Found : (e : Event T) (t : ObjType) → Found e t (look_up_file env e t)
  unfolding look_up_file
  look_up_file-Found e t = elim (Option-cases (object_find_file e.o)) [
    | inl missing ↦ rw (look_up_file, missing) (add_obj-Found e _)
    | inr (on, present) ↦ rw (look_up_file, present) (add_obj-Found e _)
  ]

  get_path-Found : (e : Event T) → Found e path (get_path env e)
  unfolding get_path
  get_path-Found e = elim (Option-cases (object_access e.o path)) [
    | inl missing ↦ rw (get_path, missing) (look_up_file-Found e path)
    | inr (a, present) ↦ rw (get_path, present) (Found-present e path a present)
  ]

  look_up_trust-Found :
      (e : Event T) (file : Option Bytes) → Found e obj_trust (look_up_trust env e file)
  unfolding look_up_trust
  look_up_trust-Found e none = add_obj-Found e (new_obj obj_trust)
  look_up_trust-Found e (some file) =
      Found-after e _ obj_trust _ (Extends-info e _) (add_obj-Found _ _)

  look_up_hash-Found : (e : Event T) → Found e file_hash (look_up_hash env e)
  unfolding look_up_hash
  look_up_hash-Found e = Found-after e _ file_hash _ (Extends-info e _) (add_obj-Found _ _)

  look_up_obj-Found :
      (e : Event T) (t : ObjType) → object_access e.o t ≡ none → Found e t (look_up_obj env e t)
  unfolding look_up_obj
  look_up_obj-Found e all_obj h = Found-missing e all_obj h
  look_up_obj-Found e fmode h = Found-missing e fmode h
  look_up_obj-Found e path h = look_up_file-Found e path
  look_up_obj-Found e odir h = look_up_file-Found e odir
  look_up_obj-Found e device h = add_obj-Found e _
  look_up_obj-Found e ftype h =
      Found-after e _ ftype _ (get_path-Found e).0 (add_obj-Found (get_path env e).0 _)
  look_up_obj-Found e file_hash h = look_up_hash-Found e
  look_up_obj-Found e obj_trust h =
      Found-after e _ obj_trust _ (get_path-Found e).0 (look_up_trust-Found (get_path env e).0 _)

  -- `get_obj_attr` changes neither the process, the descriptor, the kind of access nor the rule
  -- number of the event, loses no attribute, and answers with what the array then holds for the
  -- attribute.
  pub get_obj_attr-Found : (e : Event T) (t : ObjType) → Found e t (get_obj_attr env e t)
  unfolding get_obj_attr
  get_obj_attr-Found e t = elim (Option-cases (object_access e.o t)) [
    | inl missing ↦ rw (get_obj_attr, missing) (look_up_obj-Found e t missing)
    | inr (a, present) ↦ rw (get_obj_attr, present) (Found-present e t a present)
  ]
