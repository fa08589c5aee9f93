-- ===== src/Files/Remove.antt =====
-- `files_map_remove_path` of sn_api/src/app/files/mod.rs.
pub mod Kept
use safe_network_archive.Files.Changes.{Paths, ProcessedFiles, removed, report, link_of}
use safe_network_archive.Files.Info.{FilesError, content_error, FileInfo, FilesMap}
use safe_network_archive.Prelude.{
  ℕ, ◌+◌, Bool, true, false, List, [], ◌∷◌, ◌++◌, Option, none, some, Result, ok, err,
  if◌then◌else◌,
}
use safe_network_archive.Prelude.Map
use safe_network_archive.Text.{Text, text_ord, slash, strip_prefix, starts_with}

module _ ⦃p : Paths⦄ where
  -- The variables of the loop.
  pub record Removal : Type 0 where
    pub processed_files : ProcessedFiles
    pub new_files_map : FilesMap
    pub success_count : ℕ

  unfoldable pub remove_one : Text → Text → FileInfo → Removal → Removal
  remove_one folder_path file_path file_item self =
      if starts_with folder_path file_path
      then record self {
        processed_files =
            report (p.path_of file_path) (removed (link_of file_item)) self.processed_files;
        success_count = self.success_count + 1;
      }
      else record self { new_files_map = Map.insert file_path file_item self.new_files_map }

  unfoldable pub remove_from : Text → List (Text × FileInfo) → Removal → Removal
  unfolding remove_one
  remove_from folder_path [] self = self
  remove_from folder_path ((file_path, file_item) ∷ files) self =
      remove_from folder_path files (remove_one folder_path file_path file_item self)

  abbrev pub no_removal : Removal
  no_removal = record { processed_files = []; new_files_map = []; success_count = 0 }

  abbrev pub folder_of : p.PathBuf → Text
  folder_of dst_path =
      if p.ends_with_root dst_path then p.display dst_path else p.display dst_path ++ slash ∷ []

  unfoldable pub files_map_remove_path : p.PathBuf → FilesMap → Bool → Result FilesError Removal
  unfolding remove_from
  files_map_remove_path dst_path files_map true =
      ok (remove_from (folder_of dst_path) files_map no_removal)
  files_map_remove_path dst_path files_map false = elim (Map.get (p.display dst_path) files_map) [
    | none ↦ err content_error
    | some file_item ↦ ok (record {
      processed_files = report dst_path (removed (link_of file_item)) [];
      new_files_map = Map.remove (p.display dst_path) files_map;
      success_count = 1;
    })
  ]
