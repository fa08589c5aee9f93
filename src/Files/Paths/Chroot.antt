-- ===== src/Files/Paths/Chroot.antt =====
-- What `filesmap_chroot` finds.
use safe_network_archive.Files.Info.{FilesError, content_error, FilesMap}
use safe_network_archive.Files.Paths.{folder_path_of, chroot_from, filesmap_chroot}
use safe_network_archive.Prelude.{
  ◌≡◌, refl, ap, sym, ◌∙◌, ◌⊎◌, false, [], ◌∷◌, ◌++◌, if◌then◌else◌, none, some, Result, ok, err,
  ◌==◌, inl, inr, arith, Bool-cases, Option-cases,
}
use safe_network_archive.Prelude.Map
use safe_network_archive.Text.{
  Text, text_beq, text_beq_iff, text_ord, strip_prefix, ends_with_slash, slash,
}

-- What is left of a name under a folder tells it from the other names there.
strip_prefix-cases :
    (folder name : Text)
    → ((strip_prefix folder name ≡ none) × ((rest : Text) → text_beq name (folder ++ rest) ≡ false))
      ⊎ ((new : Text) × (strip_prefix folder name ≡ some new)
          × ((rest : Text) → text_beq name (folder ++ rest) ≡ text_beq new rest))
unfolding strip_prefix
strip_prefix-cases [] name = inr (name, refl, λ rest. refl)
strip_prefix-cases (c ∷ folder) [] = inl (refl, λ rest. refl)
strip_prefix-cases (c ∷ folder) (d ∷ name) = elim (Bool-cases (c == d)) [
  | inr other ↦ inl (ground arith, λ rest. ground arith)
  | inl same ↦ elim (strip_prefix-cases folder name) [
    | inl (gone, apart) ↦ inl (ground arith, λ rest. ground (arith, apart rest))
    | inr (new, left, agree) ↦ inr (new, ground arith, λ rest. ground (arith, agree rest))
  ]
]

get-chroot_from :
    (folder rest : Text) (files filtered : FilesMap)
    → Map.Distinct files
    → Map.get rest (chroot_from folder files filtered)
      ≡ Map.get_or (folder ++ rest) files (Map.get rest filtered)
unfolding chroot_from Map.get
get-chroot_from folder rest [] filtered distinct = refl
get-chroot_from folder rest ((name, item) ∷ files) filtered (fresh, distinct) =
    elim (strip_prefix-cases folder name) [
      | inl (gone, apart) ↦
          ground (arith, get-chroot_from folder rest files filtered distinct, apart rest)
      | inr (new, left, agree) ↦
          let later = get-chroot_from folder rest files (Map.insert new item filtered) distinct in
          let put = Map.get-insert new rest item filtered in
          elim (Bool-cases (text_beq new rest)) [
            | inl found ↦
                let here =
                  ap (λ key. Map.get key files)
                    ((text_beq_iff name (folder ++ rest)).0 (agree rest ∙ found)) in
                ground (arith, later, put, agree rest, here)
            | inr other ↦ ground (arith, later, put, agree rest)
          ]
    ]

-- The map under a folder, or an error where the folder holds nothing.
abbrev pub Describes : Result FilesError FilesMap → Text → FilesMap → Type 0
Describes (ok chrooted) folder files_map =
    (rest : Text) → Map.get rest chrooted ≡ Map.get (folder ++ rest) files_map
Describes (err e) folder files_map =
    (e ≡ content_error) × ((rest : Text) → Map.get (folder ++ rest) files_map ≡ none)

get-chroot :
    (folder rest : Text) (files_map : FilesMap)
    → Map.Distinct files_map
    → Map.get rest (chroot_from folder files_map []) ≡ Map.get (folder ++ rest) files_map
unfolding Map.get
get-chroot folder rest files_map distinct =
    elim (Option-cases (Map.get (folder ++ rest) files_map)) [
      | inl absent ↦ ground (arith, get-chroot_from folder rest files_map [] distinct)
      | inr (item, there) ↦ ground (arith, get-chroot_from folder rest files_map [] distinct)
    ]

described :
    (folder : Text) (files_map filtered : FilesMap)
    → ((rest : Text) → Map.get rest filtered ≡ Map.get (folder ++ rest) files_map)
    → Describes
        (elim filtered [ [] ↦ err content_error | file ∷ files ↦ ok (file ∷ files) ])
        folder
        files_map
unfolding Map.get
described folder files_map [] h = (refl, λ rest. sym (h rest))
described folder files_map (file ∷ files) h = h

-- filesmap_chroot of a map without double keys gives each entry whose key begins with the path, with a
-- slash at its end, under the rest of its key, and no other; it fails, with a content error, only where
-- there is no such entry.
pub filesmap_chroot-Describes :
    (urlpath : Text) (files_map : FilesMap)
    → Map.Distinct files_map
    → (let folder = if ends_with_slash urlpath then urlpath else urlpath ++ slash ∷ [] in
        Describes (filesmap_chroot urlpath files_map) folder files_map)
unfolding filesmap_chroot
filesmap_chroot-Describes urlpath files_map distinct =
    described (folder_path_of urlpath) files_map (chroot_from (folder_path_of urlpath) files_map [])
      (λ rest. get-chroot (folder_path_of urlpath) rest files_map distinct)
