-- ===== src/Files/RealPath/Parts.antt =====
-- The components that `realpath` walks over hold no slash, so its result splits into those that it
-- kept.
use safe_network_archive.Files.Info.{FilesMap, FileInfo, getattr, from_file_item}
use safe_network_archive.Files.RealPath.{
  Walk, broken, joined, in_order, parent, begins_with_slash, ascend, follow, visit, step,
}
use safe_network_archive.Prelude.{
  ℕ, ◌+◌, ◌≡◌, ◌≢◌, refl, sym, ap, subst, ◌∙◌, true, false, List, [], ◌∷◌, ◌++◌, ok, ◌==◌,
  Bool-cases, Option-cases, Result-cases, inl, inr, arith, All, All-append,
}
use safe_network_archive.Prelude.Map
use safe_network_archive.Text.{Text, codes, text_ord, slash, put_first, split_slash, join_slash}

abbrev pub IsPart : Text → Type 0
IsPart part = All (λ c. c ≢ slash) part

put_first-AreParts :
    (c : ℕ) (parts : List Text) → c ≢ slash → All IsPart parts → All IsPart (put_first c parts)
put_first-AreParts c [] ne h = ((ne, tt), tt)
put_first-AreParts c (part ∷ parts) ne (p, h) = ((ne, p), h)

pub split_slash-AreParts : (s : Text) → All IsPart (split_slash s)
unfolding split_slash
split_slash-AreParts [] = (tt, tt)
split_slash-AreParts (c ∷ s) = elim (Bool-cases (c == slash)) [
  | inl y ↦ rw (y, split_slash) (tt, split_slash-AreParts s)
  | inr n ↦
      rw (n, split_slash)
        (put_first-AreParts c (split_slash s) (λ e. ground arith) (split_slash-AreParts s))
]

split_slash-part : (part : Text) → IsPart part → split_slash part ≡ part ∷ []
unfolding split_slash
split_slash-part [] h = refl
split_slash-part (c ∷ part) (ne, h) = ground (arith, split_slash-part part h)

split_slash-first :
    (part s : Text) → IsPart part → split_slash (part ++ slash ∷ s) ≡ part ∷ split_slash s
unfolding split_slash
split_slash-first [] s h = refl
split_slash-first (c ∷ part) s (ne, h) = ground (arith, split_slash-first part s h)

-- Components without slashes are got back.
pub split_slash-join :
    (part : Text) (parts : List Text)
    → All IsPart (part ∷ parts)
    → split_slash (join_slash (part ∷ parts)) ≡ part ∷ parts
unfolding join_slash
split_slash-join part [] (h, _) = split_slash-part part h
split_slash-join part (next ∷ parts) (h, hs) =
    split_slash-first part (join_slash (next ∷ parts)) h
    ∙ ap (◌∷◌ part) (split_slash-join next parts hs)

pub in_order-AreParts : (newpath : List Text) → All IsPart newpath → All IsPart (in_order newpath)
in_order-AreParts [] h = tt
in_order-AreParts (cur ∷ rest) (p, h) =
    All-append IsPart (in_order rest) (cur ∷ []) (in_order-AreParts rest h) (p, tt)

pub split_slash-joined :
    (cur : Text) (rest : List Text)
    → All IsPart (cur ∷ rest)
    → split_slash (joined (cur ∷ rest)) ≡ in_order (cur ∷ rest)
split_slash-joined cur rest h =
    elim (in_order (cur ∷ rest))
        as (λ parts. parts ≢ [] → All IsPart parts → split_slash (join_slash parts) ≡ parts) [
          | [] ↦ λ some_part parts. absurd (some_part refl)
          | part ∷ parts ↦ λ some_part all. split_slash-join part parts all
        ]
      (append-some (in_order rest) cur) (in_order-AreParts (cur ∷ rest) h)
  where
    append-some : (xs : List Text) (x : Text) → xs ++ x ∷ [] ≢ []
    append-some [] x e = ground arith
    append-some (y ∷ xs) x e = ground arith

abbrev pub HasParts : Walk → Type 0
HasParts self = All IsPart self.path × All IsPart self.newpath

parent-AreParts : (newpath : List Text) → All IsPart newpath → All IsPart (parent newpath)
parent-AreParts [] h = tt
parent-AreParts (last ∷ newpath) (_, h) = h

follow-HasParts :
    (self next : Walk) (fileitem : FileInfo) (rest : List Text)
    → All IsPart self.newpath
    → All IsPart rest
    → follow self fileitem rest ≡ ok (broken next)
    → HasParts next
unfolding follow getattr
follow-HasParts self next fileitem rest h k e =
    elim (Option-cases (Map.get (codes "symlink_target") fileitem)) [
      | inl absent ↦ absurd (ground arith)
      | inr ([], has) ↦ absurd (ground arith)
      | inr (c ∷ s, has) ↦
          let target = split_slash-AreParts (c ∷ s) in
          let followed : (before : List Text)
              → All IsPart before
              → next ≡ record {
                path = (before ++ split_slash (c ∷ s)) ++ rest;
                nlinks = self.nlinks + 1;
                newpath = [];
                ended = self.ended;
              }
              → HasParts next =
            λ before b same. subst HasParts (sym same) (
              All-append IsPart (before ++ split_slash (c ∷ s)) rest
                  (All-append IsPart before (split_slash (c ∷ s)) b target) k,
              tt,
            ) in
          elim (Result-cases (begins_with_slash (c ∷ s))) [
            | inl (failure, failed) ↦ absurd (ground arith)
            | inr (true, absolute) ↦ followed [] tt (ground arith)
            | inr (false, relative) ↦
                followed (in_order (parent self.newpath))
                  (in_order-AreParts (parent self.newpath) (parent-AreParts self.newpath h))
                  (ground arith)
          ]
    ]

visit-HasParts :
    (files_map : FilesMap) (self next : Walk) (rest : List Text)
    → All IsPart self.newpath
    → All IsPart rest
    → visit files_map self rest ≡ ok (broken next)
    → HasParts next
unfolding visit
visit-HasParts files_map self next rest h k e =
    elim (Option-cases (Map.get (joined self.newpath) files_map)) [
      | inl absent ↦ absurd (ground arith)
      | inr (fileitem, found) ↦ elim (Result-cases (from_file_item fileitem)) [
        | inl (failure, failed) ↦ absurd (ground arith)
        | inr (meta, read) ↦ follow-HasParts self next fileitem rest h k (ground arith)
      ]
    ]

pub step-HasParts :
    (files_map : FilesMap) (self next : Walk) (cur : Text) (rest : List Text)
    → All IsPart (cur ∷ rest)
    → HasParts self
    → step files_map self cur rest ≡ ok (broken next)
    → HasParts next
unfolding step ascend
step-HasParts files_map self next cur rest (c, k) (_, h) e =
    visit-HasParts files_map (record self { newpath = cur ∷ self.newpath }) next rest (c, h) k
      (ground arith)
