-- ===== src/Files/Sync.antt =====
-- `files_map_sync` and `files_map_create` of sn_api/src/app/files/mod.rs.
pub mod Held
pub mod Kept
pub mod Lost
use safe_network_archive.Files.Changes.{
  Paths, Local, FilesMapChange, added, updated, removed, failed, is_success, ProcessedFiles, report,
  link_of, upload_file_to_net, add_or_update_file_item,
}
use safe_network_archive.Files.Info.{
  FilesError, panicked, file_name_conflict, file_already_exists, FileInfo, FilesMap, FileMeta,
  predicate_link, predicate_type, index, filetype_is_file,
}
use safe_network_archive.Files.Names.{get_base_paths, final_name, normalised_file_name}
use safe_network_archive.Prelude.{
  ℕ, ◌+◌, Bool, true, false, not, ◌&&◌, ◌||◌, List, [], ◌∷◌, ◌++◌, Option, none, some, Result, ok,
  err, ◌>>=◌, if◌then◌else◌, ◌=?◌,
}
use safe_network_archive.Prelude.Map
use safe_network_archive.Text.{Text, text_ord, slash, split_slash, join_slash}

-- The names that the loops over `split('/')` look up, in their order: each but the file's own name, `/` first.
abbrev pub trail_from : List Text → List Text → List Text
trail_from trail [] = []
trail_from trail (part ∷ parts) =
    join_slash (trail ++ part ∷ []) ∷ trail_from (trail ++ part ∷ []) parts

abbrev pub trail : Text → List Text
trail name = elim (split_slash name) [
  | [] ↦ []
  | part ∷ parts ↦ (slash ∷ []) ∷ trail_from (part ∷ []) parts
]

module _ ⦃p : Paths⦄ where
  -- The variables of `files_map_sync`.
  pub record Sync : Type 0 where
    pub current_files_map : FilesMap
    pub updated_files_map : FilesMap
    pub processed_files : ProcessedFiles
    pub success_count : ℕ

  -- An ancestor that is in the current map is kept as it is.
  unfoldable pub keep_ancestor : Text → Text → Sync → Sync
  keep_ancestor name ancestor self =
      if ancestor =? name then self else elim (Map.get ancestor self.current_files_map) [
        | none ↦ self
        | some fi ↦ record self {
          updated_files_map = Map.insert ancestor fi self.updated_files_map;
          current_files_map = Map.remove ancestor self.current_files_map;
        }
      ]

  unfoldable pub keep_ancestors : Text → List Text → Sync → Sync
  unfolding keep_ancestor
  keep_ancestors name [] self = self
  keep_ancestors name (ancestor ∷ ancestors) self =
      keep_ancestors name ancestors (keep_ancestor name ancestor self)

  -- The files that are left: kept, or removed with the flag `delete`.
  unfoldable pub keep_others : Bool → List (Text × FileInfo) → Sync → Sync
  keep_others delete [] self = self
  keep_others delete ((file_name, file_item) ∷ files) self = keep_others delete files (
      if delete
      then record self {
        processed_files =
            report (p.path_of file_name) (removed (link_of file_item)) self.processed_files;
        success_count = self.success_count + 1;
      }
      else record self {
        updated_files_map = Map.insert file_name file_item self.updated_files_map;
      })

  module _ (safe : Local) where
    unfoldable pub is_file_item_modified : p.PathBuf → FileInfo → Result FilesError Bool
    unfolding upload_file_to_net filetype_is_file
    is_file_item_modified local_filename file_item = index file_item predicate_type >>= λ file_type.
        if filetype_is_file file_type
        then elim (upload_file_to_net safe true local_filename) [
          | err e ↦ ok false
          | ok local_xorurl ↦
              index file_item predicate_link >>= λ link. ok (not (link =? local_xorurl))
        ]
        else ok false

    -- Adds or updates the entry of a name, in the map that is built.
    unfoldable pub put_item : p.PathBuf → Text → FileMeta → Bool → Sync → Bool × Sync
    unfolding add_or_update_file_item
    put_item local_file_name name file_meta name_exists self =
        let (done, files_map, processed) =
          add_or_update_file_item safe false local_file_name name local_file_name file_meta none
            name_exists self.updated_files_map self.processed_files in
        (
          done,
          record self {
            updated_files_map = files_map;
            processed_files = processed;
            success_count = if done then self.success_count + 1 else self.success_count;
          },
        )

    -- A name that the current map does not have.
    unfoldable pub sync_new : Bool → p.PathBuf → Text → Sync → Result FilesError Sync
    unfolding put_item keep_ancestors
    sync_new follow_links local_file_name name self = do
      file_meta ← Local.from_path safe local_file_name follow_links
      let (done, next) = put_item local_file_name name file_meta false self
      ok (if done then keep_ancestors name (trail name) next else next)

    abbrev pub conflict : Bool → Text → FilesError
    conflict is_modified name =
        if is_modified then file_name_conflict name else file_already_exists name

    -- The entry of a name that the current map has.
    unfoldable pub sync_known :
        Bool → Bool → Bool → p.PathBuf → Text → FileInfo → Bool → Sync → Result FilesError Sync
    unfolding put_item
    sync_known force compare_file_content follow_links local_file_name name file_item is_modified
          self =
        if force || compare_file_content && is_modified
        then (Local.from_path safe local_file_name follow_links >>= λ file_meta.
            ok ((put_item local_file_name name file_meta true self).1))
        else ok (record self {
          updated_files_map = Map.insert name file_item self.updated_files_map;
          processed_files =
              if not force && not compare_file_content
              then report local_file_name (failed (conflict is_modified name)) self.processed_files
              else self.processed_files;
        })

    -- One file of the local changes.
    unfoldable pub sync_one : Bool → Bool → Bool → p.PathBuf → Text → Sync → Result FilesError Sync
    unfolding sync_new sync_known is_file_item_modified keep_ancestors
    sync_one force compare_file_content follow_links local_file_name name self =
        elim (Map.get name self.current_files_map) [
          | none ↦ sync_new follow_links local_file_name name self
          | some file_item ↦ do
            is_modified ← is_file_item_modified local_file_name file_item
            next ←
                sync_known force compare_file_content follow_links local_file_name name file_item
                  is_modified self
            ok (
                keep_ancestors name (trail name)
                  (record next { current_files_map = Map.remove name next.current_files_map }))
        ]

    unfoldable pub sync_all :
        Bool → Bool → Bool → Text × Text → ProcessedFiles → Sync → Result FilesError Sync
    unfolding sync_one is_success normalised_file_name
    sync_all force compare_file_content follow_links bases [] self = ok self
    sync_all force compare_file_content follow_links bases ((local_file_name, change) ∷ new_content)
          self =
        do
          let name = normalised_file_name safe bases.0 bases.1 (p.display local_file_name)
          next ←
              if is_success change
              then sync_one force compare_file_content follow_links local_file_name name self
              else ok self
          sync_all force compare_file_content follow_links bases new_content next

    unfoldable pub files_map_sync :
        FilesMap
        → Text
        → ProcessedFiles
        → Option Text
        → Bool
        → Bool
        → Bool
        → Bool
        → Result FilesError Sync
    unfolding sync_all keep_others get_base_paths
    files_map_sync current_files_map location new_content dst_path delete force compare_file_content
          follow_links =
        do
          synced ←
              sync_all force compare_file_content follow_links (get_base_paths location dst_path)
                new_content
                (record {
                  current_files_map = current_files_map;
                  updated_files_map = [];
                  processed_files = [];
                  success_count = 0;
                })
          ok (keep_others delete synced.current_files_map synced)
