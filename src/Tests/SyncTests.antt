-- ===== src/Tests/SyncTests.antt =====
-- A synchronisation with a local folder, and the theorems there.
use safe_network_archive.Files.Changes.{
  added, is_success, normalise_path_separator, try_store, upload_file_to_net, gen_new_file_item,
  add_or_update_file_item,
}
use safe_network_archive.Files.Info.{
  content_upload_verification_failed, FileInfo, getattr, filetype_is_symlink, filetype_is_dir,
  filetype_is_file, from_file_item, add_to_fileitem, to_file_item, from_type_and_size,
}
use safe_network_archive.Files.Names.{
  get_base_paths, replace_from, trim_end, final_name, normalised_file_name,
}
use safe_network_archive.Files.Paths.{chroot_from, filesmap_chroot}
use safe_network_archive.Files.RealPath.{
  begins_with_slash, ascend, follow, visit, step, walk, walks, realpath,
}
use safe_network_archive.Files.Remove.{remove_one, remove_from, files_map_remove_path}
use safe_network_archive.Files.Sync.{
  Sync, keep_ancestor, keep_ancestors, keep_others, is_file_item_modified, put_item, sync_new,
  sync_known, sync_one, sync_all, files_map_sync,
}
use safe_network_archive.Files.Sync.Kept.{Untouched, files_map_sync-keeps}
use safe_network_archive.Files.Sync.Lost.{FailsToUpdate, files_map_sync-lost}
use safe_network_archive.Prelude.{map, ◌≡◌, refl, true, false, [], ◌∷◌, none, some, ok, err, arith}
use safe_network_archive.Prelude.Map
use safe_network_archive.Text.{
  Text, codes, text_ord, split_slash, join_slash, strip_prefix, starts_with, ends_with_slash,
}
use safe_network_archive.Tests.Folders.{
  toy_paths, file_item, broken_md, toy_local, local_files, container,
}

abbrev nothing : Sync
nothing = record {
  current_files_map = [];
  updated_files_map = [];
  processed_files = [];
  success_count = 0;
}

abbrev synced : Sync
synced =
    elim (files_map_sync toy_local container (codes "./") local_files (some (codes "/")) false false
      true false) [ ok result ↦ result | err e ↦ nothing ]

sync_program : Unit {0}
unfolding normalise_path_separator try_store upload_file_to_net gen_new_file_item
    add_or_update_file_item getattr filetype_is_symlink filetype_is_dir filetype_is_file
    from_file_item add_to_fileitem to_file_item from_type_and_size get_base_paths replace_from
    trim_end final_name normalised_file_name chroot_from filesmap_chroot begins_with_slash ascend
    follow visit step walk walks realpath remove_one remove_from files_map_remove_path split_slash
    join_slash strip_prefix starts_with ends_with_slash Map.get Map.insert Map.remove keep_ancestor
    keep_ancestors keep_others is_file_item_modified put_item sync_new sync_known sync_one sync_all
    files_map_sync is_success
sync_program = tt

synced-ok :
    files_map_sync toy_local container
      (codes "./")
      local_files
      (some (codes "/"))
      false
      false
      true
      false
    ≡ ok synced
unfolding sync_program
synced-ok = refl

synced_map :
    map (λ (file : Text × FileInfo). file.0) synced.updated_files_map
    ≡ codes "/docs" ∷ codes "/new.md" ∷ []
unfolding sync_program
synced_map = refl

added_success : is_success (added []) ≡ true
unfolding is_success
added_success = refl

container-Distinct : Map.Distinct container
unfolding Map.get
container-Distinct = (refl, (refl, tt))

docs-Untouched :
    Untouched toy_local (codes "/docs") (get_base_paths (codes "./") (some (codes "/"))) local_files
unfolding sync_program
docs-Untouched = ((λ s e. ground arith), ((λ s e. ground arith), tt))

files_map_sync-keeps_example :
    Map.get (codes "/docs") synced.updated_files_map ≡ Map.get (codes "/docs") container
files_map_sync-keeps_example =
    files_map_sync-keeps toy_local (codes "/docs") container (codes "./") local_files
      (some (codes "/")) false true false synced container-Distinct docs-Untouched synced-ok

broken-FailsToUpdate :
    FailsToUpdate toy_local false true false broken_md (file_item (codes "safe://before"))
unfolding sync_program
broken-FailsToUpdate = (
  true,
  from_type_and_size (codes "3") (codes "Raw") (codes "9"),
  content_upload_verification_failed (codes "safe://./broken.md"),
  refl,
  refl,
  refl,
  refl,
)

broken-Untouched :
    Untouched toy_local
      (codes "/broken.md")
      (get_base_paths (codes "./") (some (codes "/")))
      ((codes "./new.md", added []) ∷ [])
unfolding sync_program
broken-Untouched = ((λ s e. ground arith), tt)

broken_name :
    normalised_file_name toy_local
      (get_base_paths (codes "./") (some (codes "/"))).0
      (get_base_paths (codes "./") (some (codes "/"))).1
      broken_md
    ≡ codes "/broken.md"
unfolding sync_program
broken_name = refl

broken_there : Map.get (codes "/broken.md") container ≡ some (file_item (codes "safe://before"))
unfolding Map.get
broken_there = refl

files_map_sync-lost_example : Map.get (codes "/broken.md") synced.updated_files_map ≡ none
files_map_sync-lost_example =
    files_map_sync-lost toy_local container (codes "./") broken_md (added [])
      ((codes "./new.md", added []) ∷ []) (some (codes "/")) false true false (codes "/broken.md")
      (file_item (codes "safe://before")) synced container-Distinct broken_name broken_there
      added_success broken-FailsToUpdate broken-Untouched synced-ok
