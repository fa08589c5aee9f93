-- ===== src/Files/Sync/Lost.antt =====
-- What a failing upload does in a synchronisation.
use safe_network_archive.Files.Changes.{
  Paths, Local, FilesMapChange, is_success, ProcessedFiles, add_or_update_file_item,
  gen_new_file_item,
}
use safe_network_archive.Files.Info.{FilesError, FileInfo, FilesMap, FileMeta}
use safe_network_archive.Files.Names.{get_base_paths, normalised_file_name}
use safe_network_archive.Files.Sync.{
  Sync, trail, keep_ancestors, keep_others, is_file_item_modified, put_item, sync_known, sync_one,
  sync_all, files_map_sync,
}
use safe_network_archive.Files.Sync.Held.{Keeps, keep_ancestors-Keeps}
use safe_network_archive.Files.Sync.Kept.{Untouched, sync_all-Keeps, keep_others-Held}
use safe_network_archive.Prelude.{
  ◌≡◌, refl, sym, subst, Bool, true, false, ◌&&◌, ◌||◌, [], ◌∷◌, Option, none, some, ok, err,
  =?-refl, inl, inr, arith, Result-cases,
}
use safe_network_archive.Prelude.Map
use safe_network_archive.Text.{Text, text_ord}

module _ ⦃p : Paths⦄ (safe : Local) where
  -- The entry of a name is to be replaced, and the replacement cannot be made.
  abbrev pub FailsToUpdate : Bool → Bool → Bool → p.PathBuf → FileInfo → Type 0
  FailsToUpdate force compare_file_content follow_links local_file_name item =
      (is_modified : Bool) × (file_meta : FileMeta) × (e : FilesError) × (is_file_item_modified safe
          local_file_name item
        ≡ ok is_modified)
      × ((force || compare_file_content && is_modified) ≡ true)
      × (Local.from_path safe local_file_name follow_links ≡ ok file_meta)
      × (gen_new_file_item safe false local_file_name file_meta none ≡ err e)

  sync_known-updated :
      (name : Text) (force compare_file_content follow_links : Bool) (local_file_name : p.PathBuf)
      (item : FileInfo) (self next : Sync)
      → (failing : FailsToUpdate force compare_file_content follow_links local_file_name item)
      → sync_known safe force compare_file_content follow_links local_file_name name item failing.0
          self
        ≡ ok next
      → (next.updated_files_map ≡ self.updated_files_map)
        × (next.current_files_map ≡ self.current_files_map)
  unfolding sync_known put_item add_or_update_file_item
  sync_known-updated name force compare_file_content follow_links local_file_name item self next
        (is_modified, file_meta, e, compared, updating, read, failed) known =
      ground arith

  sync_one-lost :
      (name : Text) (force compare_file_content follow_links : Bool) (local_file_name : p.PathBuf)
      (item : FileInfo) (self next : Sync)
      → FailsToUpdate force compare_file_content follow_links local_file_name item
      → Map.get name self.current_files_map ≡ some item
      → Keeps name (some item) self
      → sync_one safe force compare_file_content follow_links local_file_name name self ≡ ok next
      → Keeps name none next
  unfolding sync_one
  sync_one-lost name force compare_file_content follow_links local_file_name item self next failing
        there (held, distinct) e =
      let (is_modified, file_meta, failure, compared, updating, read, failed) = failing in
      elim (Result-cases (
        sync_known safe force compare_file_content follow_links local_file_name name item
          is_modified self)) [
            | inl (error, refused) ↦ absurd (ground arith)
            | inr (moved, known) ↦
                let (kept, left) =
                  sync_known-updated name force compare_file_content follow_links local_file_name
                    item self moved failing known in
                let rest : Sync = record moved {
                  current_files_map = Map.remove name moved.current_files_map;
                } in
                let same : keep_ancestors name (trail name) rest ≡ next = ground arith in
                subst (Keeps name none) same (
                  keep_ancestors-Keeps name none name (trail name) rest (
                    ground (arith, Map.get-remove name name moved.current_files_map, =?-refl name),
                    Map.remove-Distinct name moved.current_files_map
                        (subst Map.Distinct (sym left) distinct),
                  ))
          ]

  lost_first :
      (current_files_map : FilesMap) (location : Text) (local_file_name : p.PathBuf)
      (change : FilesMapChange) (new_content : ProcessedFiles) (dst_path : Option Text)
      (force compare_file_content follow_links : Bool) (item : FileInfo) (result : Sync)
      → (let bases = get_base_paths location dst_path in
          let name = normalised_file_name safe bases.0 bases.1 (p.display local_file_name) in
          Map.Distinct current_files_map
          → Map.get name current_files_map ≡ some item
          → is_success change ≡ true
          → FailsToUpdate force compare_file_content follow_links local_file_name item
          → Untouched safe name bases new_content
          → files_map_sync safe current_files_map location
              ((local_file_name, change) ∷ new_content)
              dst_path
              false
              force
              compare_file_content
              follow_links
            ≡ ok result
          → Map.get name result.updated_files_map ≡ none)
  unfolding files_map_sync Map.get sync_all
  lost_first current_files_map location local_file_name change new_content dst_path force
        compare_file_content follow_links item result distinct there success failing untouched e =
      let bases = get_base_paths location dst_path in
      let name = normalised_file_name safe bases.0 bases.1 (p.display local_file_name) in
      let first : Sync = record {
        current_files_map = current_files_map;
        updated_files_map = [];
        processed_files = [];
        success_count = 0;
      } in
      elim (Result-cases
        (sync_one safe force compare_file_content follow_links local_file_name name first)) [
          | inl (failure, failed) ↦ absurd (ground arith)
          | inr (moved, one) ↦
              elim (Result-cases
                (sync_all safe force compare_file_content follow_links bases new_content moved)) [
                  | inl (failure, failed) ↦ absurd (ground arith)
                  | inr (synced, all) ↦
                      let same : keep_others false synced.current_files_map synced ≡ result =
                        ground arith in
                      subst (λ (r : Sync). Map.get name r.updated_files_map ≡ none) same
                        (keep_others-Held name none synced (
                          sync_all-Keeps safe name none force compare_file_content follow_links
                            bases new_content moved synced untouched
                            (sync_one-lost name force compare_file_content follow_links
                              local_file_name item first moved failing there
                              (inl (there, refl), distinct) one)
                            all))
                ]
        ]

  -- When the first local change is of a name that the map, which has no double keys, has an entry of, which
  -- is to be replaced because of its content or of the flag `force`, and the replacement cannot be made, as
  -- when the upload fails, and no other change is of that name, then no entry of the name is left when
  -- files_map_sync succeeds without the flag `delete`.
  pub files_map_sync-lost :
      (current_files_map : FilesMap) (location : Text) (local_file_name : p.PathBuf)
      (change : FilesMapChange) (new_content : ProcessedFiles) (dst_path : Option Text)
      (force compare_file_content follow_links : Bool) (name : Text) (item : FileInfo)
      (result : Sync)
      → Map.Distinct current_files_map
      → normalised_file_name safe
          (get_base_paths location dst_path).0
          (get_base_paths location dst_path).1
          (p.display local_file_name)
        ≡ name
      → Map.get name current_files_map ≡ some item
      → is_success change ≡ true
      → FailsToUpdate force compare_file_content follow_links local_file_name item
      → Untouched safe name (get_base_paths location dst_path) new_content
      → files_map_sync safe current_files_map location
          ((local_file_name, change) ∷ new_content)
          dst_path
          false
          force
          compare_file_content
          follow_links
        ≡ ok result
      → Map.get name result.updated_files_map ≡ none
  files_map_sync-lost current_files_map location local_file_name change new_content dst_path force
        compare_file_content follow_links name item result distinct named there success failing
        untouched e =
      subst
        (λ (n : Text).
          Map.get n current_files_map ≡ some item
          → Untouched safe n (get_base_paths location dst_path) new_content
          → Map.get n result.updated_files_map ≡ none)
        named
        (λ there untouched.
          lost_first current_files_map location local_file_name change new_content dst_path force
            compare_file_content follow_links item result distinct there success failing untouched
            e)
        there untouched
