-- ===== src/Tests/FileTests.antt =====
-- Containers with directories and symbolic links, and the theorems there.
use safe_network_archive.Files.Changes.{
  normalise_path_separator, try_store, upload_file_to_net, gen_new_file_item,
  add_or_update_file_item,
}
use safe_network_archive.Files.Info.{
  FilesMap, FileMeta, getattr, filetype_is_symlink, filetype_is_dir, filetype_is_file,
  from_file_item, add_to_fileitem, to_file_item, from_type_and_size, mimetype_filesystem_dir,
}
use safe_network_archive.Files.Names.{
  get_base_paths, replace_from, trim_end, final_name, normalised_file_name,
}
use safe_network_archive.Files.Paths.{chroot_from, filesmap_chroot}
use safe_network_archive.Files.Paths.Chroot.{Describes, filesmap_chroot-Describes}
use safe_network_archive.Files.RealPath.{
  begins_with_slash, ascend, follow, visit, step, walk, walks, realpath,
}
use safe_network_archive.Files.RealPath.Ends.{EndsPlain, HasPlainTargets, realpath-some}
use safe_network_archive.Files.RealPath.Loops.{HasDirs, realpath-none}
use safe_network_archive.Files.RealPath.Prefixes.{IsResolved}
use safe_network_archive.Files.RealPath.Resolved.{realpath-Resolved}
use safe_network_archive.Files.Remove.{remove_one, remove_from, files_map_remove_path}
use safe_network_archive.Files.Remove.Kept.{RemovesPath, files_map_remove_path-RemovesPath}
use safe_network_archive.Prelude.{
  ◌≡◌, ◌≢◌, refl, subst, Bool-cases, inl, inr, true, [], ◌∷◌, none, some, ok, ◌=?◌, arith,
}
use safe_network_archive.Prelude.Map
use safe_network_archive.Text.{
  Text, codes, text_ord, split_slash, join_slash, strip_prefix, starts_with, ends_with_slash,
}
use safe_network_archive.Tests.Folders.{toy_paths, folder_item, link_item, file_item}

files_program : Unit {0}
unfolding normalise_path_separator try_store upload_file_to_net gen_new_file_item
    add_or_update_file_item getattr filetype_is_symlink filetype_is_dir filetype_is_file
    from_file_item add_to_fileitem to_file_item from_type_and_size get_base_paths replace_from
    trim_end final_name normalised_file_name chroot_from filesmap_chroot begins_with_slash ascend
    follow visit step walk walks realpath remove_one remove_from files_map_remove_path split_slash
    join_slash strip_prefix starts_with ends_with_slash Map.get Map.insert Map.remove
files_program = tt

abbrev documents : FilesMap
documents =
    (codes "/docs", folder_item)
    ∷ (codes "/docs/old.md", link_item (codes "../notes/./new.md"))
    ∷ (codes "/notes", folder_item)
    ∷ (codes "/notes/new.md", file_item (codes "safe://new"))
    ∷ []

old_to_new : realpath 18 documents (codes "/docs/old.md") ≡ some (ok (codes "/notes/new.md"))
unfolding files_program
old_to_new = refl

realpath-Resolved_example : IsResolved documents (codes "/notes/new.md")
realpath-Resolved_example =
    realpath-Resolved 18 documents (codes "/docs/old.md") (codes "/notes/new.md")
      (λ e. ground arith) old_to_new

abbrev folders : FilesMap
folders = (codes "/docs", folder_item) ∷ []

abbrev folder_meta : FileMeta
folder_meta = record {
  created = codes "1";
  modified = codes "2";
  file_size = codes "0";
  file_type = mimetype_filesystem_dir;
  readonly = none;
  mode_bits = none;
  original_created = none;
  original_modified = none;
}

folder_item-read : from_file_item folder_item ≡ ok folder_meta
unfolding files_program
folder_item-read = refl

folders-HasDirs : HasDirs folders
unfolding Map.get
folders-HasDirs path fileitem there = (folder_meta, ground (arith, folder_item-read), refl)

realpath-none_example : realpath 1000 folders (codes "/docs/.") ≡ none
unfolding split_slash
realpath-none_example =
    realpath-none 1000 folders (codes "docs") folders-HasDirs ((λ e. ground arith), tt)

abbrev linked : FilesMap
linked = (codes "/docs/old.md", link_item (codes "../new.md")) ∷ folders

target_plain : EndsPlain (split_slash (codes "../new.md"))
unfolding files_program
target_plain = ((λ e. ground arith), (λ e. ground arith))

linked-HasPlainTargets : HasPlainTargets linked
unfolding Map.get
linked-HasPlainTargets path fileitem target there given =
    elim (Bool-cases (codes "/docs/old.md" =? path)) [
      | inl same ↦
          let e : codes "../new.md" ≡ target = ground arith in
          subst (λ (t : Text). EndsPlain (split_slash t)) e target_plain
      | inr differ ↦ absurd (ground arith)
    ]

realpath-some_example : realpath 18 linked (codes "/docs/old.md") ≢ none
unfolding split_slash
realpath-some_example =
    realpath-some linked (codes "/docs/old.md") linked-HasPlainTargets
      ((λ e. ground arith), (λ e. ground arith))

documents-Distinct : Map.Distinct documents
unfolding Map.get
documents-Distinct = (refl, (refl, (refl, (refl, tt))))

filesmap_chroot-Describes_example :
    Describes (filesmap_chroot (codes "/docs") documents) (codes "/docs/") documents
unfolding files_program
filesmap_chroot-Describes_example =
    filesmap_chroot-Describes (codes "/docs") documents documents-Distinct

docs_under :
    filesmap_chroot (codes "/docs") documents
    ≡ ok ((codes "old.md", link_item (codes "../notes/./new.md")) ∷ [])
unfolding files_program
docs_under = refl

files_map_remove_path-RemovesPath_example :
    RemovesPath
      (codes "/docs")
      documents
      true
      (files_map_remove_path (codes "/docs") documents true)
files_map_remove_path-RemovesPath_example =
    files_map_remove_path-RemovesPath (codes "/docs") documents true documents-Distinct

-- With a slash at the end of the path nothing is removed.
slash_removes_none :
    files_map_remove_path (codes "/docs/") documents true
    ≡ ok (record { processed_files = []; new_files_map = documents; success_count = 0 })
unfolding files_program
slash_removes_none = refl
