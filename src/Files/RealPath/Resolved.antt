-- ===== src/Files/RealPath/Resolved.antt =====
-- What `realpath` leaves in a path.
use safe_network_archive.Files.Info.{
  FilesMap, FileInfo, FileMeta, from_file_item, is_symlink, filetype_is_symlink,
  mimetype_filesystem_symlink, predicate_type,
}
use safe_network_archive.Files.RealPath.Prefixes.{
  IsLinkAt, IsResolved, Resolved, Resolved-AreParts, joined-IsResolved,
}
use safe_network_archive.Files.RealPath.Parts.{IsPart, split_slash-AreParts, step-HasParts}
use safe_network_archive.Files.RealPath.{
  Walk, go_on, broken, joined, dot, dots, begins_with_slash, ascend, follow, visit, step, walk,
  walks, begin, realpath,
}
use safe_network_archive.Prelude.{
  ℕ, zero, suc, ◌≡◌, ◌≢◌, sym, subst, All, true, false, List, [], ◌∷◌, some, ok, ◌=?◌, Bool-cases,
  Option-cases, Result-cases, inl, inr, arith,
}
use safe_network_archive.Prelude.Map
use safe_network_archive.Text.{Text, text_beq_iff, text_ord}

from_file_item-type :
    (fileitem : FileInfo) (meta : FileMeta)
    → from_file_item fileitem ≡ ok meta
    → Map.get predicate_type fileitem ≡ some meta.file_type
unfolding from_file_item
from_file_item-type fileitem meta e = ground arith

follow-broken :
    (self next : Walk) (fileitem : FileInfo) (rest : List Text)
    → follow self fileitem rest ≢ ok (go_on next)
unfolding follow
follow-broken self next fileitem rest e = ground arith

IsLinkAt-symlink :
    (files_map : FilesMap) (path : Text) (fileitem : FileInfo) (meta : FileMeta)
    → Map.get path files_map ≡ some fileitem
    → from_file_item fileitem ≡ ok meta
    → IsLinkAt files_map path
    → is_symlink meta ≡ true
unfolding filetype_is_symlink
IsLinkAt-symlink files_map path fileitem meta found read (other, same, type) =
    (text_beq_iff meta.file_type mimetype_filesystem_symlink).1
      (ground (arith, from_file_item-type fileitem meta read))

visit-goes_on :
    (files_map : FilesMap) (self next : Walk) (rest : List Text)
    → visit files_map self rest ≡ ok (go_on next)
    → (next.newpath ≡ self.newpath) × ¬ IsLinkAt files_map (joined self.newpath)
unfolding visit
visit-goes_on files_map self next rest e =
    elim (Option-cases (Map.get (joined self.newpath) files_map)) [
      | inl absent ↦ (ground arith, λ link. cc)
      | inr (fileitem, found) ↦ elim (Result-cases (from_file_item fileitem)) [
        | inl (failure, failed) ↦ absurd (ground arith)
        | inr (meta, read) ↦ elim (Bool-cases (is_symlink meta)) [
          | inl linked ↦ absurd (ground (arith, follow-broken self next fileitem rest))
          | inr plain ↦ (
            ground arith,
            λ link. ground (
              arith,
              IsLinkAt-symlink files_map (joined self.newpath) fileitem meta found read link,
            ),
          )
        ]
      ]
    ]

ascend-Resolved :
    (files_map : FilesMap) (self next : Walk)
    → Resolved files_map self.newpath
    → ascend self ≡ ok (go_on next)
    → Resolved files_map next.newpath
unfolding ascend
ascend-Resolved files_map self next h e = ground arith

step-Resolved :
    (files_map : FilesMap) (self next : Walk) (cur : Text) (rest : List Text)
    → IsPart cur
    → Resolved files_map self.newpath
    → step files_map self cur rest ≡ ok (go_on next)
    → Resolved files_map next.newpath
unfolding step
step-Resolved files_map self next cur rest p h e = elim (Bool-cases (cur =? dot)) [
  | inl same ↦
      let stays : self ≡ next = ground arith in
      subst (λ (w : Walk). Resolved files_map w.newpath) stays h
  | inr no_dot ↦ elim (Bool-cases (cur =? dots)) [
    | inl same ↦ ascend-Resolved files_map self next h (ground arith)
    | inr no_dots ↦
        let (kept, no_link) =
          visit-goes_on files_map (record self { newpath = cur ∷ self.newpath }) next rest
            (ground arith) in
        rw kept (
          p,
          (λ c. ground (arith, text_beq_iff cur dot)),
          (λ c. ground (arith, text_beq_iff cur dots)),
          no_link,
          h,
        )
  ]
]

follow-restarts :
    (self moved : Walk) (fileitem : FileInfo) (rest : List Text)
    → follow self fileitem rest ≡ ok (broken moved)
    → moved.newpath ≡ []
unfolding follow
follow-restarts self moved fileitem rest e = ground arith

step-restarts :
    (files_map : FilesMap) (self moved : Walk) (cur : Text) (rest : List Text)
    → step files_map self cur rest ≡ ok (broken moved)
    → moved.newpath ≡ []
unfolding step visit ascend
step-restarts files_map self moved cur rest e =
    let entered : Walk = record self { newpath = cur ∷ self.newpath } in
    elim (Option-cases (Map.get (joined (cur ∷ self.newpath)) files_map)) [
      | inl absent ↦ ground arith
      | inr (fileitem, found) ↦ ground (arith, follow-restarts entered moved fileitem rest)
    ]

visit-path :
    (files_map : FilesMap) (self next : Walk) (rest : List Text)
    → visit files_map self rest ≡ ok (go_on next)
    → next.path ≡ self.path
unfolding visit
visit-path files_map self next rest e =
    elim (Option-cases (Map.get (joined self.newpath) files_map)) [
      | inl absent ↦ ground arith
      | inr (fileitem, found) ↦ ground (arith, follow-broken self next fileitem rest)
    ]

step-path :
    (files_map : FilesMap) (self next : Walk) (cur : Text) (rest : List Text)
    → step files_map self cur rest ≡ ok (go_on next)
    → next.path ≡ self.path
unfolding step ascend
step-path files_map self next cur rest e =
    ground (arith, visit-path files_map (record self { newpath = cur ∷ self.newpath }) next rest)

-- What a round keeps: the components of the path to walk over hold no slash.
abbrev Sound : FilesMap → Walk → Type 0
Sound files_map self = All IsPart self.path × Resolved files_map self.newpath

walk-Sound :
    (files_map : FilesMap) (self next : Walk) (rest : List Text)
    → All IsPart rest
    → Sound files_map self
    → walk files_map self rest ≡ ok next
    → Sound files_map next
unfolding walk
walk-Sound files_map self next [] k h e =
    let stays : self ≡ next = ground arith in subst (Sound files_map) stays h
walk-Sound files_map self next (cur ∷ rest) (p, k) (q, h) e =
    elim (Result-cases (step files_map self cur rest)) [
      | inl (failure, failed) ↦ absurd (ground arith)
      | inr (go_on moved, passed) ↦
          let same : moved.path ≡ self.path = step-path files_map self moved cur rest passed in
          walk-Sound files_map moved next rest k
            (
              subst (All IsPart) (sym same) q,
              step-Resolved files_map self moved cur rest p h passed,
            )
            (ground arith)
      | inr (broken moved, stopped) ↦
          let stays : moved ≡ next = ground arith in
          let (parts, _) =
            step-HasParts files_map self moved cur rest (p, k)
              (q, Resolved-AreParts files_map self.newpath h) stopped in
          subst (Sound files_map) stays (
            parts,
            subst (Resolved files_map) (sym (step-restarts files_map self moved cur rest stopped))
                tt,
          )
    ]

walks-Resolved :
    (fuel : ℕ) (files_map : FilesMap) (self : Walk) (path : Text)
    → Sound files_map self
    → walks fuel files_map self ≡ some (ok path)
    → (newpath : List Text) × (path ≡ joined newpath) × Resolved files_map newpath
unfolding walks
walks-Resolved zero files_map self path h e = absurd (ground arith)
walks-Resolved (suc fuel) files_map self path h e = elim (Bool-cases self.ended) [
  | inl over ↦ (self.newpath, ground arith, h.1)
  | inr more ↦ elim (Result-cases (walk files_map self self.path)) [
    | inl (failure, failed) ↦ absurd (ground arith)
    | inr (next, walked) ↦
        walks-Resolved fuel files_map next path
          (walk-Sound files_map self next self.path h.0 h walked) (ground arith)
  ]
]

-- When realpath returns a path that is not empty, in whatever map, no component of the path, split at its
-- slashes, is `.` or `..`, and neither the path nor one of the paths up to its components is a symbolic
-- link of the map.
pub realpath-Resolved :
    (fuel : ℕ) (files_map : FilesMap) (fpath path : Text)
    → path ≢ []
    → realpath fuel files_map fpath ≡ some (ok path)
    → IsResolved files_map path
unfolding realpath
realpath-Resolved fuel files_map [] path some_path e = absurd (ground arith)
realpath-Resolved fuel files_map (c ∷ s) path some_path e =
    elim (Result-cases (begins_with_slash (c ∷ s))) [
      | inl (failure, failed) ↦ absurd (ground arith)
      | inr (false, relative) ↦ absurd (ground arith)
      | inr (true, absolute) ↦
          let (newpath, same, resolved) =
            walks-Resolved fuel files_map (begin (c ∷ s)) path (split_slash-AreParts (c ∷ s), tt)
              (ground arith) in
          joined-IsResolved files_map newpath path some_path same resolved
    ]
