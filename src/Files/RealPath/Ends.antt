-- ===== src/Files/RealPath/Ends.antt =====
-- How `realpath` comes to an end.
use safe_network_archive.Files.Info.{FilesMap, FileInfo, getattr, from_file_item, is_symlink}
use safe_network_archive.Files.RealPath.{
  Walk, Step, go_on, broken, joined, in_order, parent, dot, dots, begins_with_slash, ascend, follow,
  visit, step, walk, walks, begin, realpath,
}
use safe_network_archive.Prelude.{
  ℕ, zero, suc, ◌+◌, ◌≤◌, ◌≡◌, ◌≢◌, ◌⊎◌, refl, sym, ap, subst, ◌∙◌, true, false, List, [], ◌∷◌,
  ◌++◌, append-nil, none, some, ok, Bool-cases, Option-cases, Result-cases, inl, inr, arith,
}
use safe_network_archive.Prelude.Map
use safe_network_archive.Text.{Text, codes, text_beq_iff, text_ord, split_slash}

-- There is a last component, and it is neither `.` nor `..`.
abbrev pub EndsPlain : List Text → Type 0
EndsPlain [] = ⊥
EndsPlain (cur ∷ []) = (cur ≢ dot) × (cur ≢ dots)
EndsPlain (cur ∷ next ∷ rest) = EndsPlain (next ∷ rest)

-- The target of every symbolic link ends so.
abbrev pub HasPlainTargets : FilesMap → Type 0
HasPlainTargets files_map =
    (path : Text) (fileitem : FileInfo) (target : Text)
    → Map.get path files_map ≡ some fileitem
    → Map.get (codes "symlink_target") fileitem ≡ some target
    → EndsPlain (split_slash target)

EndsPlain-append : (xs ys : List Text) → EndsPlain ys → EndsPlain (xs ++ ys)
EndsPlain-append [] ys h = h
EndsPlain-append (x ∷ []) [] h = elim h [ ]
EndsPlain-append (x ∷ []) (y ∷ ys) h = h
EndsPlain-append (x ∷ next ∷ xs) ys h = EndsPlain-append (next ∷ xs) ys h

-- A path that replaces a link and what comes after it.
EndsPlain-target :
    (before target rest : List Text)
    → EndsPlain target
    → (rest ≡ []) ⊎ EndsPlain rest
    → EndsPlain ((before ++ target) ++ rest)
EndsPlain-target before target rest h (inl over) =
    rw over
      (subst EndsPlain (sym (append-nil (before ++ target))) (EndsPlain-append before target h))
EndsPlain-target before target rest h (inr more) = EndsPlain-append (before ++ target) rest more

-- What a round does that begins again: it has followed one link more, of sixteen at most.
abbrev Followed : Walk → Walk → Type 0
Followed self next = (next.nlinks ≡ suc self.nlinks) × (next.nlinks ≤ 16) × EndsPlain next.path

follow-Followed :
    (files_map : FilesMap) (self next : Walk) (path : Text) (fileitem : FileInfo) (rest : List Text)
    → HasPlainTargets files_map
    → Map.get path files_map ≡ some fileitem
    → (rest ≡ []) ⊎ EndsPlain rest
    → follow self fileitem rest ≡ ok (broken next)
    → Followed self next
unfolding follow getattr
follow-Followed files_map self next path fileitem rest plain found ends e =
    elim (Option-cases (Map.get (codes "symlink_target") fileitem)) [
      | inl absent ↦ absurd (ground arith)
      | inr ([], has) ↦ absurd (ground arith)
      | inr (c ∷ s, has) ↦
          let ends_so = plain path fileitem (c ∷ s) found has in
          let few : self.nlinks + 1 ≤ 16 = ground arith in
          let followed : (before : List Text)
              → next ≡ record {
                path = (before ++ split_slash (c ∷ s)) ++ rest;
                nlinks = self.nlinks + 1;
                newpath = [];
                ended = self.ended;
              }
              → Followed self next =
            λ before same.
              subst (Followed self) (sym same) (
                omega arith,
                few,
                EndsPlain-target before (split_slash (c ∷ s)) rest ends_so ends,
              ) in
          elim (Result-cases (begins_with_slash (c ∷ s))) [
            | inl (failure, failed) ↦ absurd (ground arith)
            | inr (true, absolute) ↦ followed [] (ground arith)
            | inr (false, relative) ↦ followed (in_order (parent self.newpath)) (ground arith)
          ]
    ]

follow-broken :
    (self next : Walk) (fileitem : FileInfo) (rest : List Text)
    → follow self fileitem rest ≢ ok (go_on next)
unfolding follow
follow-broken self next fileitem rest e = ground arith

-- What a component does that is no `.` or `..`.
abbrev Visited : Walk → List Text → Step → Type 0
Visited self rest (go_on next) = (next.nlinks ≡ self.nlinks) × (rest ≡ [] → next.ended ≡ true)
Visited self rest (broken next) = Followed self next

visit-Visited :
    (files_map : FilesMap) (self : Walk) (rest : List Text) (out : Step)
    → HasPlainTargets files_map
    → (rest ≡ []) ⊎ EndsPlain rest
    → visit files_map self rest ≡ ok out
    → Visited self rest out
unfolding visit
visit-Visited files_map self rest (go_on next) plain ends e =
    elim (Option-cases (Map.get (joined self.newpath) files_map)) [
      | inl absent ↦ (ground arith, λ over. ground arith)
      | inr (fileitem, found) ↦ elim (Result-cases (from_file_item fileitem)) [
        | inl (failure, failed) ↦ absurd (ground arith)
        | inr (meta, read) ↦ elim (Bool-cases (is_symlink meta)) [
          | inl linked ↦ absurd (ground (arith, follow-broken self next fileitem rest))
          | inr no_link ↦ (ground arith, λ over. ground arith)
        ]
      ]
    ]
visit-Visited files_map self rest (broken next) plain ends e =
    elim (Option-cases (Map.get (joined self.newpath) files_map)) [
      | inl absent ↦ absurd (ground arith)
      | inr (fileitem, found) ↦ elim (Result-cases (from_file_item fileitem)) [
        | inl (failure, failed) ↦ absurd (ground arith)
        | inr (meta, read) ↦
            follow-Followed files_map self next (joined self.newpath) fileitem rest plain found ends
              (ground arith)
      ]
    ]

-- The end of a round.
abbrev Advanced : Walk → Walk → Type 0
Advanced self next = (next.ended ≡ true) ⊎ Followed self next

step-Followed :
    (files_map : FilesMap) (self next : Walk) (cur : Text) (rest : List Text)
    → HasPlainTargets files_map
    → (rest ≡ []) ⊎ EndsPlain rest
    → step files_map self cur rest ≡ ok (broken next)
    → Followed self next
unfolding step ascend
step-Followed files_map self next cur rest plain ends e =
    visit-Visited files_map (record self { newpath = cur ∷ self.newpath }) rest (broken next) plain
      ends (ground arith)

step-nlinks :
    (files_map : FilesMap) (self next : Walk) (cur : Text) (rest : List Text)
    → HasPlainTargets files_map
    → (rest ≡ []) ⊎ EndsPlain rest
    → step files_map self cur rest ≡ ok (go_on next)
    → next.nlinks ≡ self.nlinks
unfolding step ascend
step-nlinks files_map self next cur rest plain ends e = ground (
  arith,
  visit-Visited files_map (record self { newpath = cur ∷ self.newpath }) rest (go_on next) plain
      ends,
)

step-ended :
    (files_map : FilesMap) (self next : Walk) (cur : Text)
    → HasPlainTargets files_map
    → EndsPlain (cur ∷ [])
    → step files_map self cur [] ≡ ok (go_on next)
    → next.ended ≡ true
unfolding step
step-ended files_map self next cur plain (no_dot, no_dots) e =
    let (same, over) =
      visit-Visited files_map (record self { newpath = cur ∷ self.newpath }) [] (go_on next) plain
        (inl refl) (ground (arith, text_beq_iff cur dot, text_beq_iff cur dots)) in
    over refl

walk-Advanced :
    (files_map : FilesMap) (self next : Walk) (rest : List Text)
    → HasPlainTargets files_map
    → EndsPlain rest
    → walk files_map self rest ≡ ok next
    → Advanced self next
unfolding walk
walk-Advanced files_map self next [] plain ends e = elim ends [ ]
walk-Advanced files_map self next (cur ∷ []) plain ends e =
    elim (Result-cases (step files_map self cur [])) [
      | inl (failure, failed) ↦ absurd (ground arith)
      | inr (go_on moved, passed) ↦
          inl (ground (arith, step-ended files_map self moved cur plain ends passed))
      | inr (broken moved, stopped) ↦
          let same : moved ≡ next = ground arith in
          inr (
            subst (Followed self) same
              (step-Followed files_map self moved cur [] plain (inl refl) stopped))
    ]
walk-Advanced files_map self next (cur ∷ after ∷ rest) plain ends e =
    elim (Result-cases (step files_map self cur (after ∷ rest))) [
      | inl (failure, failed) ↦ absurd (ground arith)
      | inr (go_on moved, passed) ↦
          elim (walk-Advanced files_map moved next (after ∷ rest) plain ends (ground arith)) [
            | inl over ↦ inl over
            | inr (more, few, ends_so) ↦ inr (
              more
                  ∙ ap suc
                      (step-nlinks files_map self moved cur (after ∷ rest) plain (inr ends) passed),
              few,
              ends_so,
            )
          ]
      | inr (broken moved, stopped) ↦
          let same : moved ≡ next = ground arith in
          inr (
            subst (Followed self) same
              (step-Followed files_map self moved cur (after ∷ rest) plain (inr ends) stopped))
    ]

walks-some :
    (fuel : ℕ) (files_map : FilesMap) (self : Walk)
    → HasPlainTargets files_map
    → EndsPlain self.path
    → self.nlinks ≤ 16
    → 18 ≤ fuel + self.nlinks
    → walks fuel files_map self ≢ none
unfolding walks
walks-some zero files_map self plain ends few enough e = absurd (omega arith)
walks-some (suc zero) files_map self plain ends few enough e = absurd (omega arith)
walks-some (suc (suc fuel)) files_map self plain ends few enough e = elim (Bool-cases self.ended) [
  | inl over ↦ ground arith
  | inr more ↦ elim (Result-cases (walk files_map self self.path)) [
    | inl (failure, failed) ↦ ground arith
    | inr (next, walked) ↦ elim (walk-Advanced files_map self next self.path plain ends walked) [
      | inl over ↦ ground arith
      | inr (followed, bound, ends_so) ↦
          walks-some (suc fuel) files_map next plain ends_so bound (omega arith) (ground arith)
    ]
  ]
]

-- When the last component of a path, and of the target of every symbolic link of the map, is neither `.`
-- nor `..`, realpath has its result, a path or an error, within eighteen rounds.
pub realpath-some :
    (files_map : FilesMap) (fpath : Text)
    → HasPlainTargets files_map
    → EndsPlain (split_slash fpath)
    → realpath 18 files_map fpath ≢ none
unfolding realpath
realpath-some files_map [] plain ends e = ground arith
realpath-some files_map (c ∷ s) plain ends e = elim (Result-cases (begins_with_slash (c ∷ s))) [
  | inl (failure, failed) ↦ ground arith
  | inr (true, absolute) ↦
      walks-some 18 files_map (begin (c ∷ s)) plain ends (omega arith) (omega arith) (ground arith)
  | inr (false, relative) ↦ ground arith
]
