-- ===== src/Files/RealPath/Loops.antt =====
-- Paths that `realpath` never comes to an end with.
use safe_network_archive.Files.Info.{
  FilesMap, FileInfo, FileMeta, from_file_item, filetype_is_symlink, filetype_is_dir,
  mimetype_filesystem_dir,
}
use safe_network_archive.Files.RealPath.{
  Walk, go_on, is_last, joined, dot, dots, begins_with_slash, visit, step, walk, walks, begin,
  realpath,
}
use safe_network_archive.Prelude.{
  ℕ, zero, suc, ◌≡◌, ◌≢◌, refl, ap, ◌∙◌, false, List, [], ◌∷◌, ◌++◌, none, some, ok, ◌==◌, ◌=?◌,
  if◌then◌else◌, Bool-cases, Option-cases, inl, inr, arith, All,
}
use safe_network_archive.Prelude.Map
use safe_network_archive.Text.{Text, codes, text_beq_iff, text_ord, slash, split_slash, put_first}

-- Every entry is a directory.
abbrev pub HasDirs : FilesMap → Type 0
HasDirs files_map =
    (path : Text) (fileitem : FileInfo)
    → Map.get path files_map ≡ some fileitem
    → (meta : FileMeta) × (from_file_item fileitem ≡ ok meta)
      × (meta.file_type ≡ mimetype_filesystem_dir)

put_first-append :
    (c : ℕ) (parts : List Text) (last : Text)
    → parts ≢ []
    → put_first c (parts ++ last ∷ []) ≡ put_first c parts ++ last ∷ []
put_first-append c [] last h = absurd (h refl)
put_first-append c (part ∷ parts) last h = refl

pub split_slash-some : (s : Text) → split_slash s ≢ []
unfolding split_slash
split_slash-some [] h = ground arith
split_slash-some (c ∷ s) h =
    elim (split_slash s) as (λ parts. (if c == slash then [] ∷ parts else put_first c parts) ≢ []) [
      | [] ↦ λ k. ground arith
      | part ∷ parts ↦ λ k. ground arith
    ]
      h

split_slash-dot : (s : Text) → split_slash (s ++ codes "/.") ≡ split_slash s ++ dot ∷ []
unfolding split_slash
split_slash-dot [] = refl
split_slash-dot (c ∷ s) =
    ground (arith, split_slash-dot s, put_first-append c (split_slash s) dot (split_slash-some s))

is_last-append : (parts : List Text) → is_last (parts ++ dot ∷ []) ≡ false
is_last-append [] = refl
is_last-append (part ∷ parts) = refl

path_parts :
    (fpath : Text)
    → split_slash (slash ∷ fpath ++ codes "/.") ≡ ([] ∷ split_slash fpath) ++ dot ∷ []
unfolding split_slash
path_parts fpath = ap (◌∷◌ []) (split_slash-dot fpath)

visit-passes :
    (files_map : FilesMap) (self : Walk) (rest : List Text)
    → HasDirs files_map
    → self.ended ≡ false
    → is_last rest ≡ false
    → visit files_map self rest ≡ ok (go_on self)
unfolding visit filetype_is_symlink filetype_is_dir
visit-passes files_map self rest dirs going more =
    elim (Option-cases (Map.get (joined self.newpath) files_map)) [
      | inl absent ↦ ground arith
      | inr (fileitem, found) ↦
          let (meta, read, type) = dirs (joined self.newpath) fileitem found in ground arith
    ]

-- Walking on leaves the loop's end and its path as they were.
abbrev Idles : FilesMap → Walk → List Text → Type 0
Idles files_map self rest =
    (next : Walk) × (walk files_map self rest ≡ ok next)
    × (next.ended ≡ false)
    × (next.path ≡ self.path)

walk-Idles :
    (files_map : FilesMap) (self : Walk) (parts : List Text)
    → HasDirs files_map
    → All (λ part. part ≢ dots) parts
    → self.ended ≡ false
    → Idles files_map self (parts ++ dot ∷ [])
unfolding walk step
walk-Idles files_map self [] dirs no_dots going = (self, refl, going, refl)
walk-Idles files_map self (part ∷ parts) dirs (no_dot, no_dots) going =
    let entered : Walk = record self { newpath = part ∷ self.newpath } in
    let passes =
      visit-passes files_map entered (parts ++ dot ∷ []) dirs going (is_last-append parts) in
    elim (Bool-cases (part =? dot)) [
      | inl same ↦
          let (next, walked, still, kept) = walk-Idles files_map self parts dirs no_dots going in
          (next, ground arith, still, kept)
      | inr other ↦
          let (next, walked, still, kept) = walk-Idles files_map entered parts dirs no_dots going in
          (next, ground (arith, passes, text_beq_iff part dots), still, kept)
    ]

walks-none :
    (fuel : ℕ) (files_map : FilesMap) (self : Walk) (parts : List Text)
    → HasDirs files_map
    → All (λ part. part ≢ dots) parts
    → self.ended ≡ false
    → self.path ≡ parts ++ dot ∷ []
    → walks fuel files_map self ≡ none
unfolding walks
walks-none zero files_map self parts dirs no_dots going path = refl
walks-none (suc fuel) files_map self parts dirs no_dots going path =
    let (next, walked, still, kept) = walk-Idles files_map self parts dirs no_dots going in
    ground (
      arith,
      walks-none fuel files_map next parts dirs no_dots still (kept ∙ path),
      ap (walk files_map self) path,
    )

-- Of a path below the root that ends in the component `.` and has no component `..`, in a map whose entries
-- are directories, or that is empty, realpath finds no result in any number of rounds.
pub realpath-none :
    (fuel : ℕ) (files_map : FilesMap) (fpath : Text)
    → HasDirs files_map
    → All (λ part. part ≢ dots) (split_slash fpath)
    → realpath fuel files_map (slash ∷ fpath ++ codes "/.") ≡ none
unfolding realpath begins_with_slash
realpath-none fuel files_map fpath dirs no_dots =
    walks-none fuel files_map (begin (slash ∷ fpath ++ codes "/.")) ([] ∷ split_slash fpath) dirs
      ((λ e. ground arith), no_dots) refl (path_parts fpath)
