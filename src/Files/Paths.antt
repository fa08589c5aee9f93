-- ===== src/Files/Paths.antt =====
-- Parts of a map of files: `file_map_for_path`, `get_file_link_and_metadata` and `filesmap_chroot` of
-- sn_api/src/app/files/files_map.rs.
pub mod Chroot
use safe_network_archive.Files.Changes.{Paths}
use safe_network_archive.Files.Info.{
  FilesError, content_error, FileInfo, FilesMap, filetype_is_symlink, filetype_is_file,
}
use safe_network_archive.Files.RealPath.{realpath}
use safe_network_archive.Prelude.{
  ℕ, Bool, true, false, List, [], ◌∷◌, ◌++◌, Option, none, some, Result, ok, err, ◌>>=◌, ok_or,
  if◌then◌else◌,
}
use safe_network_archive.Prelude.Map
use safe_network_archive.Text.{Text, codes, text_ord, slash, strip_prefix, ends_with_slash}

abbrev pub folder_path_of : Text → Text
folder_path_of urlpath = if ends_with_slash urlpath then urlpath else urlpath ++ slash ∷ []

-- The loop of `filesmap_chroot`.
unfoldable pub chroot_from : Text → List (Text × FileInfo) → FilesMap → FilesMap
chroot_from folder_path [] filtered_filesmap = filtered_filesmap
chroot_from folder_path ((filepath, fileitem) ∷ files) filtered_filesmap =
    chroot_from folder_path files (elim (strip_prefix folder_path filepath) [
      | none ↦ filtered_filesmap
      | some new_path ↦ Map.insert new_path fileitem filtered_filesmap
    ])

unfoldable pub filesmap_chroot : Text → FilesMap → Result FilesError FilesMap
unfolding chroot_from
filesmap_chroot urlpath files_map = elim (chroot_from (folder_path_of urlpath) files_map []) [
  | [] ↦ err content_error
  | file ∷ files ↦ ok (file ∷ files)
]

-- `file_info.get(key)`, where the key must be there.
abbrev pub property : Text → FileInfo → Result FilesError Text
property key file_info = ok_or (Map.get key file_info) content_error

-- What `file_map_for_path` gives for a path that is resolved.
unfoldable pub map_at : FilesMap → Text → Result FilesError FilesMap
unfolding filesmap_chroot filetype_is_symlink filetype_is_file
map_at files_map realpath = elim (Map.get realpath files_map) [
  | none ↦ filesmap_chroot realpath files_map
  | some file_info ↦ property (codes "type") file_info >>= λ file_type.
      if filetype_is_symlink file_type
      then err content_error
      else if filetype_is_file file_type
      then ok files_map
      else filesmap_chroot realpath files_map
]

unfoldable pub file_map_for_path : ℕ → FilesMap → Text → Option (Result FilesError FilesMap)
unfolding realpath map_at
file_map_for_path fuel files_map path = elim (realpath fuel files_map path) [
  | none ↦ none
  | some resolved ↦ some (resolved >>= map_at files_map)
]

-- What `get_file_link_and_metadata` gives for a path and what it is resolved to.
unfoldable pub link_at :
    ⦃p : Paths⦄ → FilesMap → Text → Text → Result FilesError (Option Text × Option FileInfo)
unfolding filetype_is_file
link_at ⦃p⦄ files_map path realpath = elim (Map.get realpath files_map) [
  | none ↦ ok (none, none)
  | some file_info ↦ property (codes "type") file_info >>= λ file_type.
      if filetype_is_file file_type
      then (property (codes "link") file_info >>= λ link. ok (
        some link,
        some (elim (p.file_name (p.path_of path)) [
          | none ↦ file_info
          | some name ↦ Map.insert (codes "name") name file_info
        ]),
      ))
      else ok (none, none)
]

unfoldable pub get_file_link_and_metadata :
    ⦃p : Paths⦄ → ℕ → FilesMap → Text → Option (Result FilesError (Option Text × Option FileInfo))
unfolding realpath link_at
get_file_link_and_metadata fuel files_map [] = some (ok (none, none))
get_file_link_and_metadata fuel files_map (c ∷ s) = elim (realpath fuel files_map (c ∷ s)) [
  | none ↦ none
  | some resolved ↦ some (resolved >>= link_at files_map (c ∷ s))
]
