-- ===== src/Files/Link.antt =====
-- `files_map_add_link` and `files_map_create` of sn_api/src/app/files/mod.rs.
pub mod Added
use safe_network_archive.Files.Changes.{
  Paths, Local, FilesMapChange, added, updated, removed, failed, link, ProcessedFiles, report,
  add_or_update_file_item,
}
use safe_network_archive.Files.Info.{
  FilesError, file_name_conflict, file_already_exists, FileInfo, FilesMap, FileMeta,
  from_type_and_size, from_file_item, predicate_link, index, is_file,
}
use safe_network_archive.Files.Names.{get_base_paths, final_name}
use safe_network_archive.Prelude.{
  ℕ, ◌+◌, Bool, true, false, not, List, [], ◌∷◌, Option, none, some, Result, ok, err, ◌>>=◌,
  if◌then◌else◌, ◌=?◌,
}
use safe_network_archive.Prelude.Map
use safe_network_archive.Text.{Text, text_ord}

abbrev pub retyped : Text → FileMeta → FileMeta
retyped file_type file_meta = record file_meta { file_type = file_type; file_size = [] }

abbrev pub link_differs : FileInfo → Text → FileMeta → Result FilesError Bool
link_differs current_file_item file_link file_meta =
    if is_file file_meta
    then (index current_file_item predicate_link >>= λ current. ok (not (current =? file_link)))
    else ok false

abbrev pub link_given : Text → Option Text
link_given [] = none
link_given (c ∷ s) = some (c ∷ s)

module _ ⦃p : Paths⦄ where
  pub record Addition : Type 0 where
    pub processed_files : ProcessedFiles
    pub files_map : FilesMap
    pub success_count : ℕ

module _ ⦃p : Paths⦄ (safe : Local) where
  -- `add_or_update_file_item` with a dry runner and no file of the local file system.
  unfoldable pub put_link : Text → p.PathBuf → FileMeta → Bool → FilesMap → Addition
  unfolding add_or_update_file_item
  put_link file_link file_name file_meta name_exists files_map =
      let (done, changed, processed) =
        add_or_update_file_item safe true file_name (p.display file_name) (p.path_of []) file_meta
          (some file_link) name_exists files_map [] in
      record {
        processed_files = processed;
        files_map = changed;
        success_count = if done then 1 else 0;
      }

  abbrev pub skip : p.PathBuf → FilesError → FilesMap → Addition
  skip path e files_map = record {
    processed_files = report path (failed e) [];
    files_map = files_map;
    success_count = 0;
  }

  -- The argument after the map is the content type of the link, or the error of reading it.
  unfoldable pub files_map_add_link :
      FilesMap → Result FilesError Text → Text → p.PathBuf → Bool → Result FilesError Addition
  unfolding put_link from_file_item from_type_and_size
  files_map_add_link files_map (err e) file_link file_name force =
      ok (skip (p.path_of file_link) e files_map)
  files_map_add_link files_map (ok file_type) file_link file_name force =
      elim (Map.get (p.display file_name) files_map) [
        | none ↦ ok (
            put_link file_link file_name
              (from_type_and_size (Local.gen_timestamp_secs safe) file_type []) false files_map)
        | some current_file_item ↦ do
          current_meta ← from_file_item current_file_item
          let file_meta = retyped file_type current_meta
          is_modified ← link_differs current_file_item file_link file_meta
          ok (
              if is_modified
              then (if force
                  then put_link file_link file_name file_meta true files_map
                  else skip file_name (file_name_conflict (p.display file_name)) files_map)
              else skip (p.path_of file_link) (file_already_exists (p.display file_name)) files_map)
      ]

  -- One path of `files_map_create`, with both maps.
  unfoldable pub create_one :
      Text × Text
      → Bool
      → p.PathBuf
      → FilesMapChange
      → FilesMap × ProcessedFiles
      → Result FilesError (FilesMap × ProcessedFiles)
  unfolding link final_name add_or_update_file_item
  create_one bases follow_links file_name change (files_map, content) = elim (link change) [
    | none ↦ ok (files_map, content)
    | some xorurl ↦ do
      file_meta ← Local.from_path safe file_name follow_links
      let name = final_name safe bases.0 bases.1 (p.display file_name)
      let put =
          add_or_update_file_item safe false file_name name file_name file_meta (link_given xorurl)
            false files_map content
      ok (put.1, put.2)
  ]

  unfoldable pub create_all :
      Text × Text
      → Bool
      → ProcessedFiles
      → FilesMap × ProcessedFiles
      → Result FilesError (FilesMap × ProcessedFiles)
  unfolding create_one
  create_all bases follow_links [] maps = ok maps
  create_all bases follow_links ((file_name, change) ∷ names) maps = do
    next ← create_one bases follow_links file_name change maps
    create_all bases follow_links names next

  unfoldable pub files_map_create :
      ProcessedFiles → Text → Option Text → Bool → Result FilesError (FilesMap × ProcessedFiles)
  unfolding create_all get_base_paths
  files_map_create content location dst_path follow_links =
      create_all (get_base_paths location dst_path) follow_links content ([], content)
