-- ===== src/Files/Link/Added.antt =====
-- What `files_map_add_link` adds.
use safe_network_archive.Files.Changes.{Paths, Local, add_or_update_file_item, gen_new_file_item}
use safe_network_archive.Files.Info.{
  panicked, FileInfo, FilesMap, FileMeta, from_type_and_size, from_file_item, predicate_link,
  filetype_is_file, is_file, to_file_item,
}
use safe_network_archive.Files.Link.{Addition, put_link, files_map_add_link, retyped, link_differs}
use safe_network_archive.Prelude.{
  ◌≡◌, ◌≢◌, subst, ◌⊎◌, Bool, true, false, [], none, some, ok, err, inl, inr, arith, Bool-cases,
  Option-cases, Result-cases,
}
use safe_network_archive.Prelude.Map
use safe_network_archive.Text.{Text, text_beq_iff, text_ord}

module _ ⦃p : Paths⦄ (safe : Local) where
  -- A link to a file is added or nothing is done; the entries of the other names stay.
  abbrev pub Adds : FilesMap → Text → Text → Addition → Type 0
  Adds files_map file_link name result =
      ((result.success_count ≡ 0) × (result.files_map ≡ files_map)
        ⊎ (result.success_count ≡ 1)
          × ((item : FileInfo) × (Map.get name result.files_map ≡ some item)
              × (Map.get predicate_link item ≡ some file_link))
          × ((other : Text)
              → other ≢ name
              → Map.get other result.files_map ≡ Map.get other files_map))

  put_link-Adds :
      (files_map : FilesMap) (file_link : Text) (file_name : p.PathBuf) (file_meta : FileMeta)
      (name_exists : Bool)
      → is_file file_meta ≡ true
      → Adds files_map file_link
          (p.display file_name)
          (put_link safe file_link file_name file_meta name_exists files_map)
  unfolding put_link add_or_update_file_item gen_new_file_item
  put_link-Adds files_map file_link file_name file_meta name_exists file =
      let item = Map.insert predicate_link file_link (to_file_item file_meta) in
      let made : gen_new_file_item safe true (p.path_of []) file_meta (some file_link) ≡ ok item =
        ground arith in
      inr (
        ground (arith, made),
        (
          item,
          ground (arith, made, Map.get-insert_self (p.display file_name) item files_map),
          Map.get-insert_self predicate_link file_link (to_file_item file_meta),
        ),
        (λ other differs. ground (
          arith,
          made,
          Map.get-insert (p.display file_name) other item files_map,
          text_beq_iff (p.display file_name) other,
        )),
      )

  -- When files_map_add_link succeeds for a link whose content type is a file's, either it adds no entry and
  -- the map stays as it was, or it counts one addition, the name has an entry with that link, and the other
  -- names have the entries that they had.
  pub files_map_add_link-Adds :
      (files_map : FilesMap) (file_type file_link : Text) (file_name : p.PathBuf) (force : Bool)
      (result : Addition)
      → filetype_is_file file_type ≡ true
      → files_map_add_link safe files_map (ok file_type) file_link file_name force ≡ ok result
      → Adds files_map file_link (p.display file_name) result
  unfolding files_map_add_link from_type_and_size
  files_map_add_link-Adds files_map file_type file_link file_name force result file e =
      elim (Option-cases (Map.get (p.display file_name) files_map)) [
        | inl absent ↦
            let meta = from_type_and_size (Local.gen_timestamp_secs safe) file_type [] in
            let same : put_link safe file_link file_name meta false files_map ≡ result =
              ground arith in
            subst (Adds files_map file_link (p.display file_name)) same
              (put_link-Adds files_map file_link file_name meta false file)
        | inr (item, there) ↦ elim (Result-cases (from_file_item item)) [
          | inl (failure, failed) ↦ absurd (ground arith)
          | inr (meta, read) ↦
              elim (Result-cases (link_differs item file_link (retyped file_type meta))) [
                | inl (failure, failed) ↦ absurd (ground arith)
                | inr (false, compared) ↦ inl (ground arith)
                | inr (true, compared) ↦ elim (Bool-cases force) [
                  | inr careful ↦ inl (ground arith)
                  | inl forced ↦
                      let same : put_link safe file_link file_name (retyped file_type meta) true
                            files_map
                          ≡ result =
                        ground arith in
                      subst (Adds files_map file_link (p.display file_name)) same (
                        put_link-Adds files_map file_link file_name (retyped file_type meta) true
                          file)
                ]
              ]
        ]
      ]

  -- At the name of an entry without a link, as a directory's is, files_map_add_link of a link to a file panics.
  pub files_map_add_link-panics :
      (files_map : FilesMap) (file_type file_link : Text) (file_name : p.PathBuf) (force : Bool)
      (item : FileInfo) (meta : FileMeta)
      → filetype_is_file file_type ≡ true
      → Map.get (p.display file_name) files_map ≡ some item
      → from_file_item item ≡ ok meta
      → Map.get predicate_link item ≡ none
      → files_map_add_link safe files_map (ok file_type) file_link file_name force ≡ err panicked
  unfolding files_map_add_link
  files_map_add_link-panics files_map file_type file_link file_name force item meta file there read
        no_link =
      ground arith
