-- ===== src/Files/RealPath/Prefixes.antt =====
-- The components of a path that `realpath` returns, and the paths up to them.
use safe_network_archive.Files.Info.{
  FilesMap, FileInfo, mimetype_filesystem_symlink, predicate_type,
}
use mathlib.Core.List.{map-append}
use safe_network_archive.Files.RealPath.Parts.{IsPart, split_slash-joined}
use safe_network_archive.Files.RealPath.{joined, in_order, dot, dots}
use safe_network_archive.Prelude.{
  ◌≡◌, ◌≢◌, refl, sym, ap, subst, ◌∙◌, ◌++◌, map, All, All-append, List, [], ◌∷◌, some,
}
use safe_network_archive.Prelude.Map
use safe_network_archive.Text.{Text, text_ord, split_slash, join_slash}

-- The entry of a path is a symbolic link.
abbrev pub IsLinkAt : FilesMap → Text → Type 0
IsLinkAt files_map path =
    (fileitem : FileInfo) × (Map.get path files_map ≡ some fileitem)
    × (Map.get predicate_type fileitem ≡ some mimetype_filesystem_symlink)

-- The paths up to each component.
abbrev pub prefixes : List Text → List (List Text)
prefixes [] = []
prefixes (part ∷ parts) = (part ∷ []) ∷ map (◌∷◌ part) (prefixes parts)

-- No component of the path is `.` or `..`, and no path up to a component is a symbolic link.
abbrev pub IsResolved : FilesMap → Text → Type 0
IsResolved files_map path =
    All (λ part. (part ≢ dot) × (part ≢ dots)) (split_slash path)
    × All (λ above. ¬ IsLinkAt files_map (join_slash above)) (prefixes (split_slash path))

-- The same of the components that the walk has kept, the last one first.
abbrev pub Resolved : FilesMap → List Text → Type 0
Resolved files_map [] = Unit
Resolved files_map (cur ∷ rest) =
    IsPart cur
    × (cur ≢ dot)
    × (cur ≢ dots)
    × ¬ IsLinkAt files_map (joined (cur ∷ rest))
    × Resolved files_map rest

prefixes-append :
    (parts : List Text) (part : Text)
    → prefixes (parts ++ part ∷ []) ≡ prefixes parts ++ (parts ++ part ∷ []) ∷ []
prefixes-append [] part = refl
prefixes-append (first ∷ parts) part =
    ap (λ z. (first ∷ []) ∷ map (◌∷◌ first) z) (prefixes-append parts part)
    ∙ ap (◌∷◌ (first ∷ [])) (map-append (◌∷◌ first) (prefixes parts) ((parts ++ part ∷ []) ∷ []))

pub Resolved-AreParts :
    (files_map : FilesMap) (newpath : List Text) → Resolved files_map newpath → All IsPart newpath
Resolved-AreParts files_map [] h = tt
Resolved-AreParts files_map (cur ∷ rest) (p, _, _, _, h) = (p, Resolved-AreParts files_map rest h)

in_order-no_dots :
    (files_map : FilesMap) (newpath : List Text)
    → Resolved files_map newpath
    → All (λ part. (part ≢ dot) × (part ≢ dots)) (in_order newpath)
in_order-no_dots files_map [] h = tt
in_order-no_dots files_map (cur ∷ rest) (_, no_dot, no_dots, _, h) =
    All-append (λ part. (part ≢ dot) × (part ≢ dots)) (in_order rest) (cur ∷ [])
      (in_order-no_dots files_map rest h) ((no_dot, no_dots), tt)

in_order-no_links :
    (files_map : FilesMap) (newpath : List Text)
    → Resolved files_map newpath
    → All (λ above. ¬ IsLinkAt files_map (join_slash above)) (prefixes (in_order newpath))
in_order-no_links files_map [] h = tt
in_order-no_links files_map (cur ∷ rest) (_, _, _, no_link, h) =
    subst (All (λ above. ¬ IsLinkAt files_map (join_slash above)))
      (sym (prefixes-append (in_order rest) cur))
      (All-append (λ above. ¬ IsLinkAt files_map (join_slash above)) (prefixes (in_order rest))
        ((in_order rest ++ cur ∷ []) ∷ []) (in_order-no_links files_map rest h) (no_link, tt))

pub joined-IsResolved :
    (files_map : FilesMap) (newpath : List Text) (path : Text)
    → path ≢ []
    → path ≡ joined newpath
    → Resolved files_map newpath
    → IsResolved files_map path
unfolding join_slash
joined-IsResolved files_map [] path some_path e h = absurd (some_path e)
joined-IsResolved files_map (cur ∷ rest) path some_path e h =
    let parts : split_slash path ≡ in_order (cur ∷ rest) =
      ap split_slash e ∙ split_slash-joined cur rest (Resolved-AreParts files_map (cur ∷ rest) h) in
    rw parts (in_order-no_dots files_map (cur ∷ rest) h, in_order-no_links files_map (cur ∷ rest) h)
