-- ===== src/Dag/RoundTrip.antt =====
-- A grown DAG that is written can be read, with all its keys.
use safe_network_archive.Dag.{
  SectionsDag, SectionInfo, new, key_of, has_key, get_hash, get_parent_key, verify_and_insert,
}
use safe_network_archive.Dag.Branch.{IsNode}
use safe_network_archive.Dag.Chain.{IsGrown, new-IsGrown, get_parent_key_genesis}
use safe_network_archive.Dag.Insert.{verify_and_insert-IsGrown, has_key-verify_and_insert}
use safe_network_archive.Dag.Cover.{all-has_key}
use safe_network_archive.Dag.Wire.{
  Section, Intermediate, visit_all, climb_all, serialize, insert_sections, deserialize,
}
use safe_network_archive.Extern.{BlsKeys, PublicKey, keys_ord, MerkleReg}
use safe_network_archive.Prelude.{
  ℕ, ◌<◌, ◌≡◌, ◌≢◌, refl, sym, ap, subst, ◌∙◌, inl, inr, true, false, List, [], ◌∷◌, ◌++◌,
  append-nil, Option, some, ok, eq_of_=?, =?_of_ne, length, In, All, arith, Bool-cases,
  Result-cases,
}
use safe_network_archive.Prelude.Map
use safe_network_archive.Prelude.Sets
use safe_network_archive.Dag.ReadBack.{insert_sections-append, Mirrors, Knows, climb-Reads}

module _ ⦃b : BlsKeys⦄ ⦃m : MerkleReg SectionInfo⦄ where
  has_key-insert_sections :
      (dag next : SectionsDag) (sections : List Section) (k : PublicKey)
      → insert_sections dag sections ≡ ok next
      → has_key dag k ≡ true
      → has_key next k ≡ true
  unfolding insert_sections
  has_key-insert_sections dag next [] k e has = subst (λ d. has_key d k ≡ true) (ground arith) has
  has_key-insert_sections dag next ((parent, info) ∷ sections) k e has =
      elim (Result-cases (verify_and_insert dag parent info.key info.sig)) [
        | inl (failure, failed) ↦ absurd (ground arith)
        | inr (moved, inserted) ↦ has_key-insert_sections moved next sections k (ground arith) (
            ground (arith, has_key-verify_and_insert dag parent info.key info.sig moved k inserted))
      ]

  has_key-get_parent_key :
      (dag : SectionsDag) (k : PublicKey)
      → has_key dag k ≡ false
      → (o : Option PublicKey) → get_parent_key dag k ≢ ok o
  unfolding has_key get_parent_key get_hash Map.contains_key
  has_key-get_parent_key dag k absent o e = ground arith

  get_parent_key-ok :
      (dag : SectionsDag) (k : PublicKey)
      → has_key dag k ≡ true
      → (o : Option PublicKey) × (get_parent_key dag k ≡ ok o)
  unfolding has_key get_parent_key get_hash Map.contains_key
  get_parent_key-ok dag k has = elim (Result-cases (get_parent_key dag k)) [
    | inl (failure, failed) ↦ absurd (ground arith)
    | inr (o, found) ↦ (o, found)
  ]

  module _ (self : SectionsDag) (g : IsGrown self) where
    -- What the climbs from some leaves write can be read, and then the leaves are there.
    climb_all-reads :
        (fuel : ℕ) (visited : List PublicKey) (leaves : List m.Node) (dag : SectionsDag)
        → ((n : m.Node) → In n leaves → IsNode self n)
        → length self.hashes < fuel
        → Mirrors self g dag
        → Knows self g visited dag
        → (sections : List Section) × (dag' : SectionsDag) × (climb_all fuel self visited leaves
            ≡ some sections)
          × (insert_sections dag sections ≡ ok dag')
          × Mirrors self g dag'
          × ((n : m.Node) → In n leaves → has_key dag' (key_of n) ≡ true)
    unfolding climb_all insert_sections
    climb_all-reads fuel visited [] dag nodes enough mirrors knows =
        ([], dag, refl, refl, mirrors, λ n i. absurd i)
    climb_all-reads fuel visited (leaf ∷ leaves) dag nodes enough mirrors knows =
        let e = nodes leaf (inl refl) in
        let (line, l, bound) =
          g.lineage (key_of leaf) (m.hash leaf) (g.valid.keyed (m.hash leaf) leaf e) in
        let (path, next, climbed, read, mirrors', knows', has, _) =
          climb-Reads self g fuel visited leaf line [] dag e l (omega arith) mirrors knows in
        let (sections, dag', climbed', read', mirrors_all, all) =
          climb_all-reads fuel (visit_all (path ++ []) visited) leaves next (λ n i. nodes n (inr i))
            enough mirrors'
            (subst (λ z. Knows self g (visit_all z visited) next) (sym (append-nil path)) knows') in
        (
          (path ++ []) ++ sections,
          dag',
          rw (climb_all, climbed, climbed'),
          ap (λ z. insert_sections dag (z ++ sections)) (append-nil path)
              ∙ insert_sections-append dag next path sections read
              ∙ read',
          mirrors_all,
          λ n i. elim i [
            | inl q ↦
                subst (λ z. has_key dag' (key_of z) ≡ true) (sym q)
                  (has_key-insert_sections next dag' sections (key_of leaf) read' has)
            | inr j ↦ all n j
          ],
        )

  -- The same genesis key, the same keys, and the same parent of each.
  abbrev pub SameKeys : SectionsDag → SectionsDag → Type 0
  SameKeys self dag =
      (dag.genesis_key ≡ self.genesis_key)
      × ((k : PublicKey) → has_key dag k ≡ has_key self k)
      × ((k : PublicKey) → has_key self k ≡ true → get_parent_key dag k ≡ get_parent_key self k)

  Mirrors-SameKeys :
      (self : SectionsDag) (g : IsGrown self) (dag : SectionsDag)
      → Mirrors self g dag
      → ((k : PublicKey) → has_key self k ≡ true → has_key dag k ≡ true)
      → SameKeys self dag
  Mirrors-SameKeys self g dag mirrors all = (
    mirrors.1,
    (λ k. elim (Bool-cases (has_key self k)) [
      | inl has ↦ all k has ∙ sym has
      | inr absent ↦ elim (Bool-cases (has_key dag k)) [
        | inr z ↦ z ∙ sym absent
        | inl y ↦
            let (o, found) = get_parent_key-ok dag k y in
            absurd (has_key-get_parent_key self k absent o (sym (mirrors.2 k y) ∙ found))
      ]
    ]),
    λ k has. mirrors.2 k (all k has),
  )

  new-Mirrors : (self : SectionsDag) (g : IsGrown self) → Mirrors self g (new self.genesis_key)
  unfolding new has_key Map.contains_key Map.get
  new-Mirrors self g = (
    new-IsGrown self.genesis_key,
    refl,
    λ k has.
        let root_key = eq_of_=? k self.genesis_key (ground arith) in
        get_parent_key_genesis (new self.genesis_key) k root_key
        ∙ sym (get_parent_key_genesis self k root_key),
  )

  new-Knows : (self : SectionsDag) (g : IsGrown self) → Knows self g [] (new self.genesis_key)
  unfolding new has_key Map.contains_key Map.get Sets.contains
  new-Knows self g k = refl

  -- With one round more than the DAG has keys, a grown DAG can be written, and what was written is read as a
  -- grown DAG with the same genesis key, the same keys, and for each key the same parent key.
  pub deserialize-serialize :
      (self : SectionsDag) (fuel : ℕ)
      → IsGrown self
      → length self.hashes < fuel
      → (inter : Intermediate) × (dag : SectionsDag) × (serialize fuel self ≡ some inter)
        × (deserialize inter ≡ ok dag)
        × IsGrown dag
        × SameKeys self dag
  unfolding serialize deserialize
  deserialize-serialize self fuel g enough =
      let (sections, dag, written, read, mirrors, leaves) =
        climb_all-reads self g fuel [] (m.read self.dag) (new self.genesis_key)
          (λ n i. ((m.read_iff self.dag n).0 i).0) enough (new-Mirrors self g) (new-Knows self g) in
      (
        record { genesis_key = self.genesis_key; sections = sections },
        dag,
        rw (serialize, written),
        read,
        mirrors.0,
        Mirrors-SameKeys self g dag mirrors (λ k has. all-has_key self g dag k mirrors leaves has),
      )

  -- No key stands twice, and none is in the DAG.
  abbrev pub AreNew : SectionsDag → List Section → Type 0
  AreNew dag [] = Unit
  AreNew dag ((parent, info) ∷ sections) =
      (has_key dag info.key ≡ false)
      × All (λ (section : Section). section.1.key ≢ info.key) sections
      × AreNew dag sections

  AreNew-insert :
      (dag next : SectionsDag) (parent : PublicKey) (info : SectionInfo) (sections : List Section)
      → verify_and_insert dag parent info.key info.sig ≡ ok next
      → All (λ (section : Section). section.1.key ≢ info.key) sections
      → AreNew dag sections
      → AreNew next sections
  AreNew-insert dag next parent info [] e differ fresh = tt
  AreNew-insert dag next parent info ((p, i) ∷ sections) e (ne, differ) (absent, once, fresh) = (
    ground (
      arith,
      has_key-verify_and_insert dag parent info.key info.sig next i.key e,
      =?_of_ne info.key i.key (λ q. ne (sym q)),
    ),
    once,
    AreNew-insert dag next parent info sections e differ fresh,
  )

  insert_sections-IsGrown :
      (dag next : SectionsDag) (sections : List Section)
      → IsGrown dag
      → AreNew dag sections
      → insert_sections dag sections ≡ ok next
      → IsGrown next
  unfolding insert_sections
  insert_sections-IsGrown dag next [] grown fresh e = subst IsGrown (ground arith) grown
  insert_sections-IsGrown dag next ((parent, info) ∷ sections) grown (absent, once, fresh) e =
      elim (Result-cases (verify_and_insert dag parent info.key info.sig)) [
        | inl (failure, failed) ↦ absurd (ground arith)
        | inr (moved, inserted) ↦
            insert_sections-IsGrown moved next sections
              (verify_and_insert-IsGrown dag parent info.key info.sig moved grown absent inserted)
              (AreNew-insert dag moved parent info sections inserted once fresh) (ground arith)
      ]

  -- When a list of sections, from whomever, with no key twice and the genesis key not among them, is read,
  -- the DAG is grown: valid, with a chain of signers from every key to the genesis key.
  pub deserialize-IsGrown :
      (inter : Intermediate) (dag : SectionsDag)
      → AreNew (new inter.genesis_key) inter.sections
      → deserialize inter ≡ ok dag
      → IsGrown dag
  unfolding deserialize
  deserialize-IsGrown inter dag fresh e =
      insert_sections-IsGrown (new inter.genesis_key) dag inter.sections
        (new-IsGrown inter.genesis_key) fresh e
