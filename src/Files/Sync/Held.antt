-- ===== src/Files/Sync/Held.antt =====
-- What one local change of a synchronisation does to the entry of another name.
use safe_network_archive.Files.Changes.{Paths, Local, add_or_update_file_item, gen_new_file_item}
use safe_network_archive.Files.Info.{FileInfo, FileMeta}
use safe_network_archive.Files.Sync.{
  Sync, trail, keep_ancestor, keep_ancestors, is_file_item_modified, put_item, sync_new, sync_known,
  sync_one,
}
use safe_network_archive.Prelude.{
  ◌≡◌, ap, sym, subst, ◌⊎◌, Bool, true, false, ◌&&◌, ◌||◌, List, [], ◌∷◌, Option, none, ok, inl,
  inr, arith, Bool-cases, Option-cases, Result-cases,
}
use safe_network_archive.Prelude.Map
use safe_network_archive.Text.{Text, text_beq, text_beq_iff, text_ord}

module _ ⦃p : Paths⦄ where
  -- A name's entry is in one of the maps, and not in the other.
  abbrev pub Held : Text → Option FileInfo → Sync → Type 0
  Held name found self =
      (Map.get name self.current_files_map ≡ found) × (Map.get name self.updated_files_map ≡ none)
      ⊎ (Map.get name self.current_files_map ≡ none) × (Map.get name self.updated_files_map ≡ found)

  keep_ancestor-Held :
      (name : Text) (found : Option FileInfo) (other ancestor : Text) (self : Sync)
      → Held name found self
      → Held name found (keep_ancestor other ancestor self)
  unfolding keep_ancestor
  keep_ancestor-Held name found other ancestor self h =
      let gone = Map.get-remove ancestor name self.current_files_map in
      elim (Option-cases (Map.get ancestor self.current_files_map)) [
        | inl absent ↦ ground arith
        | inr (fi, there) ↦
            let put = Map.get-insert ancestor name fi self.updated_files_map in
            elim (Bool-cases (text_beq ancestor name)) [
              | inl same ↦
                  let e =
                    ap (λ key. Map.get key self.current_files_map)
                      ((text_beq_iff ancestor name).0 same) in
                  ground (arith, gone, put, e)
              | inr differ ↦ ground (arith, gone, put)
            ]
      ]

  -- The invariant of the loops for a name.
  abbrev pub Keeps : Text → Option FileInfo → Sync → Type 0
  Keeps name found self = Held name found self × Map.Distinct self.current_files_map

  keep_ancestor-Distinct :
      (other ancestor : Text) (self : Sync)
      → Map.Distinct self.current_files_map
      → Map.Distinct (Sync.current_files_map (keep_ancestor other ancestor self))
  unfolding keep_ancestor
  keep_ancestor-Distinct other ancestor self h = elim (Bool-cases (text_beq ancestor other)) [
    | inl same ↦ rw same h
    | inr differ ↦ elim (Option-cases (Map.get ancestor self.current_files_map)) [
      | inl absent ↦ rw (differ, absent) h
      | inr (fi, there) ↦ rw (differ, there) (Map.remove-Distinct ancestor self.current_files_map h)
    ]
  ]

  pub keep_ancestors-Keeps :
      (name : Text) (found : Option FileInfo) (other : Text) (ancestors : List Text) (self : Sync)
      → Keeps name found self
      → Keeps name found (keep_ancestors other ancestors self)
  unfolding keep_ancestors
  keep_ancestors-Keeps name found other [] self h = h
  keep_ancestors-Keeps name found other (ancestor ∷ ancestors) self (h, distinct) =
      keep_ancestors-Keeps name found other ancestors (keep_ancestor other ancestor self) (
        keep_ancestor-Held name found other ancestor self h,
        keep_ancestor-Distinct other ancestor self distinct,
      )

  -- What is left alone by a change at another name.
  abbrev SameAt : Text → Sync → Sync → Type 0
  SameAt name self next =
      (next.current_files_map ≡ self.current_files_map)
      × (Map.get name next.updated_files_map ≡ Map.get name self.updated_files_map)

  SameAt-Keeps :
      (name : Text) (found : Option FileInfo) (self next : Sync)
      → SameAt name self next
      → Keeps name found self
      → Keeps name found next
  SameAt-Keeps name found self next (current, here) (h, distinct) =
      (ground arith, subst Map.Distinct (sym current) distinct)

  module _ (safe : Local) where
    put_item-SameAt :
        (name other : Text) (local_file_name : p.PathBuf) (file_meta : FileMeta)
        (name_exists : Bool) (self : Sync)
        → text_beq other name ≡ false
        → SameAt name self ((put_item safe local_file_name other file_meta name_exists self).1)
    unfolding put_item add_or_update_file_item
    put_item-SameAt name other local_file_name file_meta name_exists self differ =
        elim (Result-cases (gen_new_file_item safe false local_file_name file_meta none)) [
          | inl (e, failed) ↦ ground arith
          | inr (item, made) ↦ ground (arith, Map.get-insert other name item self.updated_files_map)
        ]

    sync_new-Keeps :
        (name other : Text) (found : Option FileInfo) (follow_links : Bool)
        (local_file_name : p.PathBuf) (self next : Sync)
        → text_beq other name ≡ false
        → Keeps name found self
        → sync_new safe follow_links local_file_name other self ≡ ok next
        → Keeps name found next
    unfolding sync_new
    sync_new-Keeps name other found follow_links local_file_name self next differ h e =
        elim (Result-cases (Local.from_path safe local_file_name follow_links)) [
          | inl (failure, failed) ↦ absurd (ground arith)
          | inr (file_meta, read) ↦
              let (done, moved) = put_item safe local_file_name other file_meta false self in
              let put =
                SameAt-Keeps name found self moved
                  (put_item-SameAt name other local_file_name file_meta false self differ) h in
              elim (Bool-cases done) [
                | inl made ↦
                    let same : keep_ancestors other (trail other) moved ≡ next = ground arith in
                    subst (Keeps name found) same
                      (keep_ancestors-Keeps name found other (trail other) moved put)
                | inr skipped ↦
                    let same : moved ≡ next = ground arith in subst (Keeps name found) same put
              ]
        ]

    sync_known-SameAt :
        (name other : Text) (force compare_file_content follow_links : Bool)
        (local_file_name : p.PathBuf) (file_item : FileInfo) (is_modified : Bool) (self next : Sync)
        → text_beq other name ≡ false
        → sync_known safe force compare_file_content follow_links local_file_name other file_item
            is_modified self
          ≡ ok next
        → SameAt name self next
    unfolding sync_known
    sync_known-SameAt name other force compare_file_content follow_links local_file_name file_item
          is_modified self next differ e =
        elim (Bool-cases (force || compare_file_content && is_modified)) [
          | inl updating ↦ elim (Result-cases (Local.from_path safe local_file_name follow_links)) [
            | inl (failure, failed) ↦ absurd (ground arith)
            | inr (file_meta, read) ↦
                let put = put_item-SameAt name other local_file_name file_meta true self differ in
                let same : (put_item safe local_file_name other file_meta true self).1 ≡ next =
                  ground arith in
                subst (SameAt name self) same put
          ]
          | inr copying ↦ ground (arith, Map.get-insert other name file_item self.updated_files_map)
        ]

    pub sync_one-Keeps :
        (name other : Text) (found : Option FileInfo)
        (force compare_file_content follow_links : Bool) (local_file_name : p.PathBuf)
        (self next : Sync)
        → text_beq other name ≡ false
        → Keeps name found self
        → sync_one safe force compare_file_content follow_links local_file_name other self ≡ ok next
        → Keeps name found next
    unfolding sync_one
    sync_one-Keeps name other found force compare_file_content follow_links local_file_name self
          next differ h e =
        elim (Option-cases (Map.get other self.current_files_map)) [
          | inl absent ↦
              sync_new-Keeps name other found follow_links local_file_name self next differ h
                (ground arith)
          | inr (item, there) ↦
              elim (Result-cases (is_file_item_modified safe local_file_name item)) [
                | inl (failure, failed) ↦ absurd (ground arith)
                | inr (is_modified, compared) ↦
                    elim (Result-cases (
                      sync_known safe force compare_file_content follow_links local_file_name other
                        item is_modified self)) [
                          | inl (failure, failed) ↦ absurd (ground arith)
                          | inr (moved, known) ↦
                              let (held, distinct) =
                                SameAt-Keeps name found self moved
                                  (sync_known-SameAt name other force compare_file_content
                                    follow_links local_file_name item is_modified self moved differ
                                    known)
                                  h in
                              let left : Sync = record moved {
                                current_files_map = Map.remove other moved.current_files_map;
                              } in
                              let same : keep_ancestors other (trail other) left ≡ next =
                                ground arith in
                              subst (Keeps name found) same (
                                keep_ancestors-Keeps name found other (trail other) left (
                                  ground (arith, Map.get-remove other name moved.current_files_map),
                                  Map.remove-Distinct other moved.current_files_map distinct,
                                ))
                        ]
              ]
        ]
