-- ===== src/Files/Changes.antt =====
-- Changes of a map of files: `FilesMapChange`, `add_or_update_file_item` and `gen_new_file_item` of
-- sn_api/src/app/files/files_map.rs, and `upload_file_to_net` of sn_api/src/app/files/file_system.rs.
use safe_network_archive.Files.Info.{
  FilesError, invalid_input, invalid_media_type, file_system_error, not_enough_chunks_retrieved,
  content_upload_verification_failed, FileInfo, FilesMap, FileMeta, predicate_link, is_symlink,
  is_file, to_file_item,
}
use safe_network_archive.Prelude.{
  Bool, true, false, List, [], ◌∷◌, Option, none, some, Result, ok, err, ◌>>=◌, Ord, if◌then◌else◌,
  ◌==◌,
}
use safe_network_archive.Prelude.Map
use safe_network_archive.Text.{Text, codes, text_ord, slash}

-- Paths of the local file system, as the standard library has them on a platform.
pub record Paths : Type 1 where
  pub PathBuf : Type 0
  pub path_ord : Ord PathBuf
  pub path_of : Text → PathBuf
  pub display : PathBuf → Text
  -- The last component, of a path that ends in a name that is UTF-8.
  pub file_name : PathBuf → Option Text
  -- `ends_with("/")`, which compares whole components: whether the last one is the root.
  pub ends_with_root : PathBuf → Bool

-- `failed` keeps the error whose text the source keeps.
pub data FilesMapChange : Type 0 where
  added updated removed : Text → FilesMapChange
  failed : FilesError → FilesMapChange

unfoldable pub is_success : FilesMapChange → Bool
is_success (added link) = true
is_success (updated link) = true
is_success (removed link) = true
is_success (failed e) = false

unfoldable pub link : FilesMapChange → Option Text
link (added xorurl) = some xorurl
link (updated xorurl) = some xorurl
link (removed xorurl) = some xorurl
link (failed e) = none

unfoldable pub is_added : FilesMapChange → Bool
is_added (added link) = true
is_added (updated link) = false
is_added (removed link) = false
is_added (failed e) = false

unfoldable pub is_updated : FilesMapChange → Bool
is_updated (added link) = false
is_updated (updated link) = true
is_updated (removed link) = false
is_updated (failed e) = false

unfoldable pub is_removed : FilesMapChange → Bool
is_removed (added link) = false
is_removed (updated link) = false
is_removed (removed link) = true
is_removed (failed e) = false

abbrev pub ProcessedFiles : ⦃p : Paths⦄ → Type 0
ProcessedFiles ⦃p⦄ = List (p.PathBuf × FilesMapChange)

abbrev pub report : ⦃p : Paths⦄ → p.PathBuf → FilesMapChange → ProcessedFiles → ProcessedFiles
report ⦃p⦄ path change processed_files = Map.insert ⦃o = p.path_ord⦄ path change processed_files

-- What the local file system and the network answer.
pub record Local ⦃p : Paths⦄ : Type 1 where
  pub Content : Type 0
  pub read : p.PathBuf → Option Content
  pub guess_mime : p.PathBuf → Option Text
  -- Whether it is a dry run, the content and its media type.
  pub store_bytes : Bool → Content → Option Text → Result FilesError Text
  -- Of a path with its links resolved: whether it is a directory.
  pub target_is_dir : p.PathBuf → Option Bool
  pub read_link : p.PathBuf → Option Text
  -- `FileMeta::from_path`
  pub from_path : p.PathBuf → Bool → Result FilesError FileMeta
  pub gen_timestamp_secs : Text
  -- `RelativePath::new(name).normalize()`
  pub normalize : Text → Text

-- `str::replace(from, "\\", "/")`
unfoldable pub normalise_path_separator : Text → Text
normalise_path_separator [] = []
normalise_path_separator (c ∷ s) = (if c == b'\\' then slash else c) ∷ normalise_path_separator s

abbrev pub link_of : FileInfo → Text
link_of file_item = elim (Map.get predicate_link file_item) [ none ↦ [] | some xorurl ↦ xorurl ]

module _ ⦃p : Paths⦄ (safe : Local) where
  open safe use {Content, read, guess_mime, store_bytes, target_is_dir, read_link}

  -- The media type that is left, and what storing the content with it gave.
  unfoldable pub try_store : Bool → p.PathBuf → Content → Option Text × Result FilesError Text
  try_store dry_run path content = elim (store_bytes dry_run content (guess_mime path)) [
    | err invalid_media_type ↦ (none, store_bytes dry_run content none)
    | other ↦ (guess_mime path, other)
  ]

  unfoldable pub upload_file_to_net : Bool → p.PathBuf → Result FilesError Text
  unfolding try_store
  upload_file_to_net dry_run path = elim (read path) [
    | none ↦ err invalid_input
    | some content ↦
        let (mime_type, result) = try_store dry_run path content in
        elim result [
          | err not_enough_chunks_retrieved ↦ store_bytes true content mime_type >>= λ xorurl.
              err (content_upload_verification_failed xorurl)
          | other ↦ other
        ]
  ]

  abbrev pub symlink_target_type : p.PathBuf → Text
  symlink_target_type file_path = elim (target_is_dir file_path) [
    | some true ↦ codes "dir"
    | some false ↦ codes "file"
    | none ↦ codes "unknown"
  ]

  abbrev pub target_path : p.PathBuf → Option Text → Result FilesError Text
  target_path file_path (some target) = ok target
  target_path file_path none = elim (read_link file_path) [
    | none ↦ err file_system_error
    | some target ↦ ok (normalise_path_separator target)
  ]

  unfoldable pub gen_new_file_item :
      Bool → p.PathBuf → FileMeta → Option Text → Result FilesError FileInfo
  unfolding upload_file_to_net normalise_path_separator
  gen_new_file_item dry_run file_path file_meta given =
      if is_file file_meta
      then (elim given [ none ↦ upload_file_to_net dry_run file_path | some target ↦ ok target ]
          >>= λ xorurl. ok (Map.insert predicate_link xorurl (to_file_item file_meta)))
      else if is_symlink file_meta
      then (target_path file_path given >>= λ target.
          let linked = Map.insert (codes "symlink_target") target (to_file_item file_meta) in
          ok (Map.insert (codes "symlink_target_type") (symlink_target_type file_path) linked))
      else ok (to_file_item file_meta)

  -- Whether it succeeded, with both maps afterwards.
  unfoldable pub add_or_update_file_item :
      Bool
      → p.PathBuf
      → Text
      → p.PathBuf
      → FileMeta
      → Option Text
      → Bool
      → FilesMap
      → ProcessedFiles
      → Bool × FilesMap × ProcessedFiles
  unfolding gen_new_file_item
  add_or_update_file_item dry_run file_name file_name_for_map file_path file_meta file_link
        name_exists files_map processed_files =
      elim (gen_new_file_item dry_run file_path file_meta file_link) [
        | ok new_file_item ↦
            let xorurl = link_of new_file_item in
            let file_item_change = if name_exists then updated xorurl else added xorurl in
            (
              true,
              Map.insert file_name_for_map new_file_item files_map,
              report file_name file_item_change processed_files,
            )
        | err e ↦ (false, files_map, report file_name (failed e) processed_files)
      ]
