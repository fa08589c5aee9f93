-- ===== src/Files/Remove/Kept.antt =====
-- What a removal keeps.
use safe_network_archive.Files.Changes.{Paths, removed, report, link_of}
use safe_network_archive.Files.Info.{FilesError, content_error, FileInfo, FilesMap}
use safe_network_archive.Files.Remove.{
  Removal, remove_one, remove_from, no_removal, folder_of, files_map_remove_path,
}
use safe_network_archive.Prelude.{
  ◌+◌, ◌≡◌, ◌≢◌, refl, ap, sym, Bool, true, false, [], ◌∷◌, ◌++◌, Option, none, some, Result, ok,
  err, ◌=?◌, if◌then◌else◌, inl, inr, arith, Bool-cases, Option-cases, select, length,
}
use safe_network_archive.Prelude.Map
use safe_network_archive.Text.{Text, text_beq, text_beq_iff, text_ord, starts_with, slash}

module _ ⦃p : Paths⦄ where
  get-remove_from :
      (folder name : Text) (files : FilesMap) (self : Removal)
      → Map.Distinct files
      → Map.get name (Removal.new_files_map (remove_from folder files self)) ≡ (
          if starts_with folder name
          then Map.get name self.new_files_map
          else Map.get_or name files (Map.get name self.new_files_map))
  unfolding remove_from remove_one Map.get
  get-remove_from folder name [] self distinct = ground arith
  get-remove_from folder name ((path, item) ∷ files) self (fresh, distinct) =
      let later = get-remove_from folder name files (remove_one folder path item self) distinct in
      let put = Map.get-insert path name item self.new_files_map in
      elim (Bool-cases (text_beq path name)) [
        | inl same ↦
            let e = (text_beq_iff path name).0 same in
            ground (arith, later, put, ap (starts_with folder) e, ap (λ key. Map.get key files) e)
        | inr other ↦ ground (arith, later, put)
      ]

  success_count-remove_from :
      (folder : Text) (files : FilesMap) (self : Removal)
      → Removal.success_count (remove_from folder files self)
        ≡ self.success_count + length (select (λ file. starts_with folder file.0) files)
  unfolding remove_from remove_one select
  success_count-remove_from folder [] self = ground arith
  success_count-remove_from folder ((path, item) ∷ files) self =
      ground (arith, success_count-remove_from folder files (remove_one folder path item self))

  -- The map without the entries that a test covers, with their number.
  abbrev pub Removes : (Text → Bool) → FilesMap → Removal → Type 0
  Removes covered files_map result =
      ((name : Text)
        → Map.get name result.new_files_map
          ≡ (if covered name then none else Map.get name files_map))
      × (result.success_count ≡ length (select (λ file. covered file.0) files_map))

  -- What a removal of a path does, with and without the flag for folders.
  abbrev pub RemovesPath : p.PathBuf → FilesMap → Bool → Result FilesError Removal → Type 0
  RemovesPath dst_path files_map true (ok result) =
      (let path = p.display dst_path in
        let folder = if p.ends_with_root dst_path then path else path ++ slash ∷ [] in
        Removes (starts_with folder) files_map result)
  RemovesPath dst_path files_map true (err e) = ⊥
  RemovesPath dst_path files_map false (ok result) =
      (Map.get (p.display dst_path) files_map ≢ none)
      × Removes (λ name. p.display dst_path =? name) files_map result
  RemovesPath dst_path files_map false (err e) = Map.get (p.display dst_path) files_map ≡ none

  remove_from-Removes :
      (folder : Text) (files_map : FilesMap)
      → Map.Distinct files_map
      → Removes (starts_with folder) files_map (remove_from folder files_map no_removal)
  unfolding Map.get
  remove_from-Removes folder files_map distinct = (
    (λ name. elim (Option-cases (Map.get name files_map)) [
      | inl absent ↦ ground (arith, get-remove_from folder name files_map no_removal distinct)
      | inr (item, there) ↦
          ground (arith, get-remove_from folder name files_map no_removal distinct)
    ]),
    omega (arith, success_count-remove_from folder files_map no_removal),
  )

  -- A key that a map has stands once there.
  count_absent :
      (name : Text) (files : FilesMap)
      → Map.get name files ≡ none
      → length (select (λ file. name =? file.0) files) ≡ 0
  unfolding Map.get select
  count_absent name [] h = refl
  count_absent name ((path, item) ∷ files) h =
      ground (arith, count_absent name files, text_beq_iff path name, text_beq_iff name path)

  count_present :
      (name : Text) (files : FilesMap)
      → Map.Distinct files
      → Map.get name files ≢ none
      → length (select (λ file. name =? file.0) files) ≡ 1
  unfolding Map.get select
  count_present name [] distinct h = absurd (h refl)
  count_present name ((path, item) ∷ files) (fresh, distinct) h =
      elim (Bool-cases (text_beq path name)) [
        | inl same ↦
            let e = (text_beq_iff path name).0 same in
            ground (
              arith,
              count_absent name files,
              text_beq_iff name path,
              ap (λ key. Map.get key files) e,
            )
        | inr other ↦ ground (
          arith,
          count_present name files distinct,
          text_beq_iff path name,
          text_beq_iff name path,
        )
      ]

  remove-Removes :
      (dst_path : p.PathBuf) (files_map : FilesMap) (found : Option FileInfo)
      → Map.Distinct files_map
      → Map.get (p.display dst_path) files_map ≡ found
      → RemovesPath dst_path files_map false (elim found [
        | none ↦ err content_error
        | some file_item ↦ ok (record {
          processed_files = report dst_path (removed (link_of file_item)) [];
          new_files_map = Map.remove (p.display dst_path) files_map;
          success_count = 1;
        })
      ])
  remove-Removes dst_path files_map none distinct here = here
  remove-Removes dst_path files_map (some file_item) distinct here =
      let there : Map.get (p.display dst_path) files_map ≢ none = λ absent. ground arith in
      (
        there,
        (
          (λ name. Map.get-remove (p.display dst_path) name files_map),
          sym (count_present (p.display dst_path) files_map distinct there),
        ),
      )

  -- Of a map without double keys, files_map_remove_path with the recursive flag removes exactly the entries
  -- whose key begins with the path and a slash after it, unless the path is the root, and counts them; without
  -- the flag it removes exactly the entry of the path, and fails where there is none.
  pub files_map_remove_path-RemovesPath :
      (dst_path : p.PathBuf) (files_map : FilesMap) (recursive : Bool)
      → Map.Distinct files_map
      → RemovesPath dst_path files_map recursive
          (files_map_remove_path dst_path files_map recursive)
  unfolding files_map_remove_path
  files_map_remove_path-RemovesPath dst_path files_map true distinct =
      remove_from-Removes (folder_of dst_path) files_map distinct
  files_map_remove_path-RemovesPath dst_path files_map false distinct =
      remove-Removes dst_path files_map (Map.get (p.display dst_path) files_map) distinct refl
