-- ===== src/Files/Sync/Kept.antt =====
-- What a synchronisation without the flag `delete` keeps.
use safe_network_archive.Files.Changes.{Paths, Local, is_success, ProcessedFiles}
use safe_network_archive.Files.Info.{FileInfo, FilesMap}
use safe_network_archive.Files.Names.{get_base_paths, normalised_file_name}
use safe_network_archive.Files.Sync.{Sync, keep_others, sync_one, sync_all, files_map_sync}
use safe_network_archive.Prelude.{
  ◌≡◌, ◌≢◌, refl, ap, subst, Bool, true, false, [], ◌∷◌, Option, ok, =?_of_ne, inl, inr, arith,
  Bool-cases, Option-cases, Result-cases,
}
use safe_network_archive.Prelude.Map
use safe_network_archive.Text.{Text, text_beq, text_beq_iff, text_ord}
use safe_network_archive.Files.Sync.Held.{Keeps, sync_one-Keeps}

module _ ⦃p : Paths⦄ where
  module _ (safe : Local) where
    -- No change of the list that succeeded is of the name.
    abbrev pub Untouched : Text → Text × Text → ProcessedFiles → Type 0
    Untouched name bases [] = Unit
    Untouched name bases ((local_file_name, change) ∷ new_content) =
        (is_success change ≡ true
          → normalised_file_name safe bases.0 bases.1 (p.display local_file_name) ≢ name)
        × Untouched name bases new_content

    pub sync_all-Keeps :
        (name : Text) (found : Option FileInfo) (force compare_file_content follow_links : Bool)
        (bases : Text × Text) (new_content : ProcessedFiles) (self next : Sync)
        → Untouched name bases new_content
        → Keeps name found self
        → sync_all safe force compare_file_content follow_links bases new_content self ≡ ok next
        → Keeps name found next
    unfolding sync_all
    sync_all-Keeps name found force compare_file_content follow_links bases [] self next untouched h
          e =
        let same : self ≡ next = ground arith in subst (Keeps name found) same h
    sync_all-Keeps name found force compare_file_content follow_links bases
          ((local_file_name, change) ∷ new_content) self next (other, untouched) h e =
        let own = normalised_file_name safe bases.0 bases.1 (p.display local_file_name) in
        elim (Bool-cases (is_success change)) [
          | inr failing ↦
              sync_all-Keeps name found force compare_file_content follow_links bases new_content
                self next untouched h (ground arith)
          | inl success ↦
              elim (Result-cases
                (sync_one safe force compare_file_content follow_links local_file_name own self)) [
                  | inl (failure, failed) ↦ absurd (ground arith)
                  | inr (moved, synced) ↦
                      sync_all-Keeps name found force compare_file_content follow_links bases
                        new_content moved next untouched
                        (sync_one-Keeps safe name own found force compare_file_content follow_links
                          local_file_name self moved (=?_of_ne own name (other success)) h synced)
                        (ground arith)
                ]
        ]

  get-keep_others :
      (name : Text) (files : FilesMap) (self : Sync)
      → Map.Distinct files
      → Map.get name (Sync.updated_files_map (keep_others false files self))
        ≡ Map.get_or name files (Map.get name self.updated_files_map)
  unfolding keep_others Map.get
  get-keep_others name [] self distinct = refl
  get-keep_others name ((path, item) ∷ files) self (fresh, distinct) =
      let later =
        get-keep_others name files
          (record self { updated_files_map = Map.insert path item self.updated_files_map })
          distinct in
      let put = Map.get-insert path name item self.updated_files_map in
      elim (Bool-cases (text_beq path name)) [
        | inl same ↦
            ground
              (arith, later, put, ap (λ key. Map.get key files) ((text_beq_iff path name).0 same))
        | inr differ ↦ ground (arith, later, put)
      ]

  pub keep_others-Held :
      (name : Text) (found : Option FileInfo) (self : Sync)
      → Keeps name found self
      → Map.get name (Sync.updated_files_map (keep_others false self.current_files_map self))
        ≡ found
  keep_others-Held name found self (h, distinct) = elim (Option-cases found) [
    | inl absent ↦ ground (arith, get-keep_others name self.current_files_map self distinct)
    | inr (item, there) ↦ ground (arith, get-keep_others name self.current_files_map self distinct)
  ]

  -- When files_map_sync succeeds without the flag `delete`, on a map without double keys, whatever the
  -- other flags, the local files and the answers of the network are, a name of no successful local change has
  -- afterwards the entry that it had before, or none if it had none.
  pub files_map_sync-keeps :
      (safe : Local) (name : Text) (current_files_map : FilesMap) (location : Text)
      (new_content : ProcessedFiles) (dst_path : Option Text)
      (force compare_file_content follow_links : Bool) (result : Sync)
      → Map.Distinct current_files_map
      → Untouched safe name (get_base_paths location dst_path) new_content
      → files_map_sync safe current_files_map location new_content dst_path false force
          compare_file_content follow_links
        ≡ ok result
      → Map.get name result.updated_files_map ≡ Map.get name current_files_map
  unfolding files_map_sync Map.get
  files_map_sync-keeps safe name current_files_map location new_content dst_path force
        compare_file_content follow_links result distinct untouched e =
      let first : Sync = record {
        current_files_map = current_files_map;
        updated_files_map = [];
        processed_files = [];
        success_count = 0;
      } in
      elim (Result-cases (
        sync_all safe force compare_file_content follow_links (get_base_paths location dst_path)
          new_content first)) [
            | inl (failure, failed) ↦ absurd (ground arith)
            | inr (synced, all) ↦
                let same : keep_others false synced.current_files_map synced ≡ result =
                  ground arith in
                subst
                  (λ (r : Sync). Map.get name r.updated_files_map ≡ Map.get name current_files_map)
                  same
                  (keep_others-Held name (Map.get name current_files_map) synced (
                    sync_all-Keeps safe name (Map.get name current_files_map) force
                      compare_file_content follow_links (get_base_paths location dst_path)
                      new_content first synced untouched (inl (refl, refl), distinct) all))
          ]
