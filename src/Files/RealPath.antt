-- ===== src/Files/RealPath.antt =====
-- `realpath` of sn_api/src/app/files/realpath.rs.
pub mod Resolved
pub mod Loops
pub mod Ends
pub mod Parts
pub mod Prefixes
use safe_network_archive.Files.Info.{
  FilesError, invalid_input, content_not_found, panicked, FilesMap, FileInfo, FileMeta, getattr,
  from_file_item, is_symlink, is_dir,
}
use safe_network_archive.Prelude.{
  ℕ, zero, suc, ◌+◌, Bool, true, false, ◌||◌, List, [], ◌∷◌, ◌++◌, Option, none, some, Result, ok,
  err, ◌>>=◌, ltb, leb, ◌==◌, ◌=?◌, if◌then◌else◌,
}
use safe_network_archive.Prelude.Map
use safe_network_archive.Text.{Text, codes, text_ord, slash, split_slash, join_slash}

-- `&text[0..1] == "/"`, of a text that is not empty: within a character it panics.
unfoldable pub begins_with_slash : Text → Result FilesError Bool
begins_with_slash [] = err panicked
begins_with_slash (c ∷ s) = if ltb c 128 then ok (c == slash) else err panicked

-- The variables of the loop; `newpath` has its last component first.
pub record Walk : Type 0 where
  pub path : List Text
  pub nlinks : ℕ
  pub newpath : List Text
  pub ended : Bool

abbrev pub in_order : {A : Type 0} → List A → List A
in_order [] = []
in_order (x ∷ xs) = in_order xs ++ x ∷ []

abbrev pub joined : List Text → Text
joined newpath = join_slash (in_order newpath)

abbrev pub is_last : List Text → Bool
is_last [] = true
is_last (next ∷ rest) = false

abbrev pub parent : List Text → List Text
parent [] = []
parent (last ∷ newpath) = newpath

-- A step of the inner loop: it goes on, or breaks to begin with another path.
pub data Step : Type 0 where
  go_on broken : Walk → Step

abbrev pub dot : Text
dot = codes "."

abbrev pub dots : Text
dots = codes ".."

-- `..`
unfoldable pub ascend : Walk → Result FilesError Step
ascend self = elim (parent self.newpath) [
  | [] ↦ err content_not_found
  | last ∷ rest ↦ ok (go_on (record self { newpath = last ∷ rest }))
]

-- A symbolic link, which `newpath` ends in.
unfoldable pub follow : Walk → FileInfo → List Text → Result FilesError Step
unfolding begins_with_slash
follow self fileitem rest = if ltb 16 (self.nlinks + 1) then err content_not_found else do
  target_str ← getattr fileitem (codes "symlink_target")
  elim target_str [
    | [] ↦ err content_not_found
    | c ∷ s ↦ do
      absolute ← begins_with_slash (c ∷ s)
      let target_parts = split_slash (c ∷ s)
      let target = if absolute then target_parts else in_order (parent self.newpath) ++ target_parts
      ok (
          broken (record {
            path = target ++ rest;
            nlinks = self.nlinks + 1;
            newpath = [];
            ended = self.ended;
          }))
  ]

-- A component other than the dots, which `newpath` ends in.
unfoldable pub visit : FilesMap → Walk → List Text → Result FilesError Step
unfolding follow
visit files_map self rest = elim (Map.get (joined self.newpath) files_map) [
  | none ↦ ok (go_on (record self { ended = self.ended || is_last rest }))
  | some fileitem ↦ from_file_item fileitem >>= λ meta.
      if is_symlink meta
      then follow self fileitem rest
      else if is_dir meta
      then ok (go_on (record self { ended = self.ended || is_last rest }))
      else ok (go_on (record self { ended = true }))
]

unfoldable pub step : FilesMap → Walk → Text → List Text → Result FilesError Step
unfolding ascend visit
step files_map self cur rest =
    if cur =? dot
    then ok (go_on self)
    else if cur =? dots
    then ascend self
    else visit files_map (record self { newpath = cur ∷ self.newpath }) rest

-- The inner loop over the components of a path.
unfoldable pub walk : FilesMap → Walk → List Text → Result FilesError Walk
unfolding step
walk files_map self [] = ok self
walk files_map self (cur ∷ rest) = elim (step files_map self cur rest) [
  | err e ↦ err e
  | ok (broken next) ↦ ok next
  | ok (go_on next) ↦ walk files_map next rest
]

-- The outer loop; `none` means that the fuel ran out.
unfoldable pub walks : ℕ → FilesMap → Walk → Option (Result FilesError Text)
unfolding walk
walks zero files_map self = none
walks (suc fuel) files_map self = elim self.ended [
  | true ↦ some (ok (joined self.newpath))
  | false ↦ elim (walk files_map self self.path) [
    | err e ↦ some (err e)
    | ok next ↦ walks fuel files_map next
  ]
]

abbrev pub begin : Text → Walk
begin fpath = record { path = split_slash fpath; nlinks = 0; newpath = []; ended = false }

unfoldable pub realpath : ℕ → FilesMap → Text → Option (Result FilesError Text)
unfolding begins_with_slash walks
realpath fuel files_map [] = some (err invalid_input)
realpath fuel files_map (c ∷ s) = elim (begins_with_slash (c ∷ s)) [
  | err e ↦ some (err e)
  | ok false ↦ some (err invalid_input)
  | ok true ↦ walks fuel files_map (begin (c ∷ s))
]
