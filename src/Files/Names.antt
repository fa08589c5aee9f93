-- ===== src/Files/Names.antt =====
-- The names of files in a container: `get_base_paths` of sn_api/src/app/files/mod.rs, and how
-- `files_map_sync` and `files_map_create` there use it.
use safe_network_archive.Files.Changes.{Paths, Local, normalise_path_separator}
use safe_network_archive.Prelude.{
  ℕ, zero, suc, ◌==◌, List, [], ◌∷◌, ◌++◌, Option, none, some, if◌then◌else◌, ◌=?◌, length,
}
use safe_network_archive.Text.{
  Text, codes, text_ord, slash, split_slash, ends_with_slash, strip_prefix,
}

abbrev pub last_part : List Text → Text
last_part [] = []
last_part (part ∷ []) = part
last_part (part ∷ next ∷ parts) = last_part (next ∷ parts)

abbrev pub location_base : Text → Text
location_base location =
    if location =? codes "." then codes "./" else normalise_path_separator location

abbrev pub destination : Option Text → Text
destination none = slash ∷ []
destination (some []) = slash ∷ []
destination (some (c ∷ s)) = c ∷ s

-- The paths are given by their texts.
unfoldable pub get_base_paths : Text → Option Text → Text × Text
unfolding ends_with_slash
get_base_paths location dst_path =
    let location_base_path = location_base location in
    let new_dst_path = destination dst_path in
    (
      location_base_path,
      if ends_with_slash new_dst_path
          then (if ends_with_slash location_base_path
              then new_dst_path
              else new_dst_path ++ last_part (split_slash location_base_path))
          else new_dst_path ++ slash ∷ [],
    )

-- `str::replace(from, to)`, left to right without overlaps; an empty `from` is found before every character
-- and at the end. The number says how many characters of a match are still to be passed over.
unfoldable pub replace_from : ℕ → Text → Text → Text → Text
replace_from skipped [] to [] = to
replace_from skipped (d ∷ from) to [] = []
replace_from (suc skipped) from to (c ∷ s) = replace_from skipped from to s
replace_from zero [] to (c ∷ s) = to ++ c ∷ replace_from zero [] to s
replace_from zero (d ∷ from) to (c ∷ s) = elim (strip_prefix (d ∷ from) (c ∷ s)) [
  | none ↦ c ∷ replace_from zero (d ∷ from) to s
  | some rest ↦ to ++ replace_from (length from) (d ∷ from) to s
]

abbrev pub replace : Text → Text → Text → Text
replace s from to = replace_from zero from to s

-- `trim_end_matches('/')`
unfoldable pub trim_end : Text → Text
trim_end [] = []
trim_end (c ∷ s) = elim (trim_end s) [ [] ↦ if c == slash then [] else c ∷ [] | d ∷ u ↦ c ∷ d ∷ u ]

module _ ⦃p : Paths⦄ (safe : Local) where
  -- The name in the container, without a slash at its end.
  unfoldable pub final_name : Text → Text → Text → Text
  unfolding normalise_path_separator trim_end
  final_name location_base_path dst_base_path file_name =
      let relative = Local.normalize safe (replace file_name location_base_path dst_base_path) in
      trim_end (slash ∷ normalise_path_separator relative)

  unfoldable pub normalised_file_name : Text → Text → Text → Text
  unfolding final_name
  normalised_file_name location_base_path dst_base_path file_name =
      elim (final_name location_base_path dst_base_path file_name) [
        | [] ↦ slash ∷ []
        | c ∷ s ↦ c ∷ s
      ]
