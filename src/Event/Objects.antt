-- ===== src/Event/Objects.antt =====
-- src/library/event.c: `get_obj_attr`.
use rhel_fapolicyd.Attr.{ObjType, all_obj, path, odir, device, ftype, obj_trust, file_hash, fmode}
use rhel_fapolicyd.AttrSets.Tree.{Avl}
use rhel_fapolicyd.Base.{Option, none, some, [], ◌∷◌, if◌then◌else◌, ℤ, pos, int_eq, Bytes, take}
use rhel_fapolicyd.Event.{Env, Event, new_obj, or_question, has_path}
use rhel_fapolicyd.Process.{FileInfo, HashAlg, alg_none, alg_sha256}
use rhel_fapolicyd.Subject.{ObjAttr, object_access, object_add, object_find_file}

-- The algorithm of the next hash of the file: the one of its cached digest, or SHA256.
unfoldable pub alg_or_sha256 : HashAlg → HashAlg
alg_or_sha256 alg_none = alg_sha256
alg_or_sha256 alg = alg

-- The hash of the file, and the file's record with the digest cached. FILE_DIGEST_STRING_MAX is 136.
unfoldable pub hash_of_file : {T : Type 0} → Env T → ℤ → FileInfo → Option Bytes × FileInfo
unfolding alg_or_sha256
hash_of_file env fd info =
    let alg = alg_or_sha256 info.digest_alg in
    elim info.digest [
      | c ∷ cs ↦ (some info.digest, info)
      | [] ↦ elim (env.hash_from_fd fd info.size alg) [
        | some hash ↦ (some hash, record info { digest_alg = alg; digest = take 135 hash })
        | none ↦ (none, record info { digest_alg = alg_none; digest = [] })
      ]
    ]

module _ {T : Type 0} ⦃avl : Avl T⦄ where
  -- The end of `get_obj_attr`: the attribute is added, and read back.
  unfoldable pub add_obj : Event T → ObjAttr T → Event T × Option (ObjAttr T)
  add_obj e attr = let o' = object_add e.o attr in (record e { o = o' }, object_access o' attr.type)

  -- The case of PATH and ODIR.
  unfoldable pub look_up_file : Env T → Event T → ObjType → Event T × Option (ObjAttr T)
  unfolding add_obj
  look_up_file env e t = elim (object_find_file e.o) [
    | some on ↦ add_obj e (record (new_obj t) { o = on.o })
    | none ↦ add_obj e (record (new_obj t) { o = or_question (env.file_from_fd e.fd e.pid) })
  ]

  -- `get_obj_attr(e, PATH)`
  unfoldable pub get_path : Env T → Event T → Event T × Option (ObjAttr T)
  unfolding look_up_file
  get_path env e = elim (object_access e.o path) [
    | none ↦ look_up_file env e path
    | some on ↦ (e, some on)
  ]

  -- `path ? path->o : …`
  abbrev pub path_string : Option (ObjAttr T) → Option Bytes
  path_string none = none
  path_string (some on) = on.o

  unfoldable pub look_up_trust : Env T → Event T → Option Bytes → Event T × Option (ObjAttr T)
  unfolding add_obj
  look_up_trust env e none = add_obj e (new_obj obj_trust)
  look_up_trust env e (some file) =
      let (res, info) = env.trust_database_file file e.o.info e.fd in
      add_obj (record e { o = record (e.o) { info = info } })
        (record (new_obj obj_trust) { val = if int_eq res (pos 1) then 1 else 0 })

  unfoldable pub look_up_hash : Env T → Event T → Event T × Option (ObjAttr T)
  unfolding add_obj hash_of_file
  look_up_hash env e =
      let (hash, info) = hash_of_file env e.fd e.o.info in
      add_obj (record e { o = record (e.o) { info = info } })
        (record (new_obj file_hash) { o = hash })

  -- The switch of `get_obj_attr`.
  unfoldable pub look_up_obj : Env T → Event T → ObjType → Event T × Option (ObjAttr T)
  unfolding add_obj look_up_file get_path look_up_trust look_up_hash
  look_up_obj env e path = look_up_file env e path
  look_up_obj env e odir = look_up_file env e odir
  look_up_obj env e device =
      add_obj e (record (new_obj device) { o = or_question (env.device_from_stat e.o.info.device) })
  look_up_obj env e ftype =
      let r = get_path env e in
      let file = has_path (path_string r.1) in
      add_obj r.0
        (record (new_obj ftype) { o = or_question (env.file_type_from_fd e.fd r.0.o.info file) })
  look_up_obj env e file_hash = look_up_hash env e
  look_up_obj env e obj_trust = let r = get_path env e in look_up_trust env r.0 (path_string r.1)
  look_up_obj env e fmode = (e, none)
  look_up_obj env e all_obj = (e, none)

  unfoldable pub get_obj_attr : Env T → Event T → ObjType → Event T × Option (ObjAttr T)
  unfolding look_up_obj
  get_obj_attr env e t = elim (object_access e.o t) [
    | none ↦ look_up_obj env e t
    | some on ↦ (e, some on)
  ]
