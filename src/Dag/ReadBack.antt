-- ===== src/Dag/ReadBack.antt =====
-- What is read of what was written of a grown DAG.
use safe_network_archive.Dag.{
  SectionsDag, SectionInfo, new, key_of, sig_of, has_key, get_parent_key, verify_and_insert,
}
use safe_network_archive.Dag.Branch.{
  Depth, Depth-of, Depth-unique, above, Edge, IsNode, parent_cases,
}
use safe_network_archive.Dag.Chain.{IsGrown, Lineage, root, child}
use safe_network_archive.Dag.Insert.{
  verify_and_insert-IsGrown, verify_and_insert-parent, verify_and_insert-ok_iff,
  has_key-verify_and_insert,
}
use safe_network_archive.Dag.Keep.{verify_and_insert-KeepsParents}
use safe_network_archive.Dag.Wire.{Section, climb, visit_all, insert_sections}
use safe_network_archive.Extern.{BlsKeys, PublicKey, keys_ord, MerkleReg}
use safe_network_archive.Prelude.{
  ℕ, zero, suc, ◌≤◌, ◌<◌, ◌≡◌, ◌≢◌, refl, sym, ap, subst, ◌∙◌, ◌⊎◌, inl, inr, true, false, ◌||◌,
  List, [], ◌∷◌, ◌++◌, append_assoc, some, ok, ◌=?◌, =?-refl, eq_of_=?, =?_of_ne, length, arith,
  Bool-cases, Result-cases,
}
use safe_network_archive.Prelude.Sets

module _ ⦃b : BlsKeys⦄ ⦃m : MerkleReg SectionInfo⦄ where
  pub insert_sections-append :
      (dag next : SectionsDag) (xs ys : List Section)
      → insert_sections dag xs ≡ ok next
      → insert_sections dag (xs ++ ys) ≡ insert_sections next ys
  unfolding insert_sections
  insert_sections-append dag next [] ys e = ap (λ d. insert_sections d ys) (ground arith)
  insert_sections-append dag next ((parent, info) ∷ xs) ys e =
      elim (Result-cases (verify_and_insert dag parent info.key info.sig)) [
        | inl (failure, failed) ↦ absurd (ground arith)
        | inr (moved, inserted) ↦ ground (arith, insert_sections-append moved next xs ys)
      ]

  visit_all-snoc :
      (xs : List Section) (parent : PublicKey) (info : SectionInfo) (visited : List PublicKey)
      → visit_all (xs ++ (parent, info) ∷ []) visited ≡ Sets.insert info.key (visit_all xs visited)
  unfolding visit_all
  visit_all-snoc [] parent info visited = refl
  visit_all-snoc ((p, i) ∷ xs) parent info visited =
      visit_all-snoc xs parent info (Sets.insert i.key visited)

  module _ (self : SectionsDag) (g : IsGrown self) where
    -- A part of the DAG, with the same parents.
    abbrev pub Mirrors : SectionsDag → Type 0
    Mirrors dag =
        IsGrown dag
        × (dag.genesis_key ≡ self.genesis_key)
        × ((k : PublicKey) → has_key dag k ≡ true → get_parent_key dag k ≡ get_parent_key self k)

    -- Its keys are the genesis key and those that were visited.
    abbrev pub Knows : List PublicKey → SectionsDag → Type 0
    Knows visited dag =
        (k : PublicKey) → has_key dag k ≡ (k =? self.genesis_key || Sets.contains k visited)

    insert-Mirrors :
        (dag : SectionsDag) (parent : PublicKey) (node : m.Node)
        → Mirrors dag
        → Edge self parent node
        → has_key dag parent ≡ true
        → has_key dag (key_of node) ≡ false
        → (dag' : SectionsDag) × (verify_and_insert dag parent (key_of node) (sig_of node)
            ≡ ok dag')
          × Mirrors dag'
          × ((k : PublicKey) → has_key dag' k ≡ (key_of node =? k || has_key dag k))
    insert-Mirrors dag parent node (grown, start, parents) (signed, edge) has absent =
        let key = key_of node in
        let sig = sig_of node in
        let (dag', inserted) = (verify_and_insert-ok_iff dag parent key sig).1 (signed, has) in
        let (same, kept) =
          verify_and_insert-KeepsParents dag grown parent key sig absent dag' inserted in
        let keys =
          λ (k : PublicKey). has_key-verify_and_insert dag parent key sig dag' k inserted in
        (
          dag',
          inserted,
          (
            verify_and_insert-IsGrown dag parent key sig dag' grown absent inserted,
            same ∙ start,
            λ k there. elim (Bool-cases (key =? k)) [
              | inl y ↦
                  subst (λ j. get_parent_key dag' j ≡ get_parent_key self j) (eq_of_=? key k y)
                    (verify_and_insert-parent dag parent key sig dag' grown absent inserted
                      ∙ sym edge)
              | inr z ↦
                  let old : has_key dag k ≡ true = ground (arith, keys k) in
                  kept k old ∙ parents k old
            ],
          ),
          keys,
        )

    has_key-genesis :
        (dag : SectionsDag)
        → dag.genesis_key ≡ self.genesis_key
        → has_key dag self.genesis_key ≡ true
    unfolding has_key
    has_key-genesis dag start = ground (arith, =?-refl self.genesis_key, =?-refl dag.genesis_key)

    -- A key that is read for a climb is an old one, or no deeper than the node.
    abbrev pub NoDeeper : ℕ → SectionsDag → SectionsDag → Type 0
    NoDeeper depth dag dag' =
        (k : PublicKey)
        → has_key dag' k ≡ true
        → (has_key dag k ≡ true) ⊎ ((i : ℕ) × Depth self k i × (i ≤ depth))

    -- What one climb writes can be read.
    abbrev pub Reads : ℕ → ℕ → List PublicKey → m.Node → List Section → SectionsDag → Type 0
    Reads fuel depth visited node after dag =
        (path : List Section) × (dag' : SectionsDag) × (climb fuel self visited node after
          ≡ some (path ++ after))
        × (insert_sections dag path ≡ ok dag')
        × Mirrors dag'
        × Knows (visit_all path visited) dag'
        × (has_key dag' (key_of node) ≡ true)
        × NoDeeper depth dag dag'

    add_last :
        (fuel depth : ℕ) (visited : List PublicKey) (node : m.Node) (parent : PublicKey)
        (path after : List Section) (dag above_it : SectionsDag)
        → climb fuel self visited node after ≡ some (path ++ (parent, m.value node) ∷ after)
        → insert_sections dag path ≡ ok above_it
        → Mirrors above_it
        → Knows (visit_all path visited) above_it
        → has_key above_it parent ≡ true
        → has_key above_it (key_of node) ≡ false
        → Edge self parent node
        → Depth self (key_of node) depth
        → NoDeeper depth dag above_it
        → Reads fuel depth visited node after dag
    unfolding insert_sections
    add_last fuel depth visited node parent path after dag above_it climbed read mirrors knows has
          absent edge deep no_deeper =
        let (dag', inserted, mirrors', keys) =
          insert-Mirrors above_it parent node mirrors edge has absent in
        let last : List Section = (parent, m.value node) ∷ [] in
        (
          path ++ last,
          dag',
          climbed ∙ ap some (sym (append_assoc path last after)),
          insert_sections-append dag above_it path last read ∙ ground (arith, inserted),
          mirrors',
          (λ k. rw (visit_all-snoc path parent (m.value node) visited) (
              ground (
                arith,
                keys k,
                knows k,
                Sets.contains-insert (key_of node) k (visit_all path visited),
              ))),
          ground (arith, keys (key_of node), =?-refl (key_of node)),
          (λ k there. elim (Bool-cases (key_of node =? k)) [
            | inl y ↦ inr (
              depth,
              subst (λ j. Depth self j depth) (eq_of_=? (key_of node) k y) deep,
              omega arith,
            )
            | inr z ↦ no_deeper k (ground (arith, keys k))
          ]),
        )

    known_node :
        (visited : List PublicKey) (node : m.Node) (dag : SectionsDag)
        → IsNode self node
        → Knows visited dag
        → has_key dag (key_of node) ≡ Sets.contains (key_of node) visited
    known_node visited node dag e knows =
        let above_genesis : key_of node ≢ self.genesis_key =
          λ q. cc (g.valid.no_genesis, g.valid.keyed (m.hash node) node e, q) in
        ground (arith, knows (key_of node), =?_of_ne (key_of node) self.genesis_key above_genesis)

    pub climb-Reads :
        (fuel : ℕ) (visited : List PublicKey) (node : m.Node) (line : List PublicKey)
        (after : List Section) (dag : SectionsDag)
        → IsNode self node
        → Lineage self (key_of node) line
        → length line < fuel
        → Mirrors dag
        → Knows visited dag
        → Reads fuel (length line) visited node after dag
    unfolding climb insert_sections visit_all
    climb-Reads zero visited node line after dag e l h mirrors knows = absurd (omega arith)
    climb-Reads (suc fuel) visited node line after dag e (root _ q) h mirrors knows =
        absurd (cc (g.valid.no_genesis, g.valid.keyed (m.hash node) node e, q))
    climb-Reads (suc fuel) visited node line after dag e (child _ p n line' f s t l) h mirrors
          knows =
        elim (Bool-cases (Sets.contains (key_of node) visited)) [
          | inl old ↦ (
            [],
            dag,
            rw (climb, old),
            refl,
            mirrors,
            knows,
            known_node visited node dag e knows ∙ old,
            λ k there. inl there,
          )
          | inr new ↦
              let absent = known_node visited node dag e knows ∙ new in
              let deep = above (key_of node) p (length line') f (Depth-of self p line' l) in
              elim (parent_cases self node g.valid e) [
                | inl (top, edge) ↦
                    add_last (suc fuel) (suc (length line')) visited node self.genesis_key [] after
                      dag dag (rw (climb, new, top)) refl mirrors knows
                      (has_key-genesis dag mirrors.1) absent edge deep (λ k there. inl there)
                | inr (above_it, at_node, e', edge) ↦
                    let same : p ≡ key_of above_it = cc (f, edge.1) in
                    let l' = subst (λ z. Lineage self z line') same l in
                    let (path, read, climbed, inserted, mirrors', knows', has, no_deeper) =
                      climb-Reads fuel visited above_it line'
                        ((key_of above_it, m.value node) ∷ after) dag e' l' (omega arith) mirrors
                        knows in
                    let fresh : has_key read (key_of node) ≡ false =
                      elim (Bool-cases (has_key read (key_of node))) [
                        | inr z ↦ z
                        | inl y ↦ elim (no_deeper (key_of node) y) [
                          | inl old ↦ cc (old, absent)
                          | inr (i, shallow, le) ↦ absurd (
                              omega (
                                arith,
                                Depth-unique self (key_of node) i (suc (length line')) shallow deep,
                              ))
                        ]
                      ] in
                    add_last (suc fuel) (suc (length line')) visited node (key_of above_it) path
                      after dag read (rw (climb, new, at_node) climbed) inserted mirrors' knows' has
                      fresh edge deep
                      (λ k there. elim (no_deeper k there) [
                        | inl old ↦ inl old
                        | inr (i, shallow, le) ↦ inr (i, shallow, omega arith)
                      ])
              ]
        ]
