-- ===== src/Dag/Roots.antt =====
-- The root keys of a `SectionsDAG`, where a walk down from the genesis key begins: they are the
-- keys directly below that key.
use safe_network_archive.Dag.{
  SectionsDag, SectionInfo, new, has_key, get_hash, get_parent_key, add_node, insert_trusted_key,
  verify_and_insert,
}
use safe_network_archive.Dag.Chain.{IsGrown}
use safe_network_archive.Dag.Insert.{verify_and_insert-parent, has_key-verify_and_insert}
use safe_network_archive.Dag.Keep.{verify_and_insert-KeepsParents}
use safe_network_archive.Extern.{BlsKeys, PublicKey, Signature, keys_ord, MerkleReg}
use safe_network_archive.Prelude.{
  ◌≡◌, sym, ap, subst, ◌∙◌, ◌⊎◌, ◌↔◌, inl, inr, true, false, some, ok, ◌=?◌, eq_of_=?, =?-refl, In,
  arith, Bool-cases, Option-cases,
}
use safe_network_archive.Prelude.Map
use safe_network_archive.Prelude.Sets

module _ ⦃b : BlsKeys⦄ ⦃m : MerkleReg SectionInfo⦄ where
  abbrev pub HasRoots : SectionsDag → Type 0
  HasRoots dag =
      (k : PublicKey) → In k dag.dag_root ↔ (get_parent_key dag k ≡ ok (some dag.genesis_key))

  pub new-HasRoots : (g : PublicKey) → HasRoots (new g)
  unfolding new get_parent_key get_hash Map.get
  new-HasRoots g k = (λ i. absurd i, λ e. absurd (ground arith))

  -- A key with a parent is in the DAG.
  pub has_key-of_parent :
      (dag : SectionsDag) (k p : PublicKey)
      → get_parent_key dag k ≡ ok (some p)
      → has_key dag k ≡ true
  unfolding get_parent_key get_hash has_key Map.contains_key
  has_key-of_parent dag k p e = ground arith

  -- The root keys after an insertion are those before it, and below the genesis key the new one.
  roots_after :
      (dag dag' : SectionsDag) (parent key k : PublicKey) (sig : Signature)
      → verify_and_insert dag parent key sig ≡ ok dag'
      → In k dag'.dag_root
      → In k dag.dag_root ⊎ ((k ≡ key) × (parent ≡ dag.genesis_key))
  unfolding verify_and_insert insert_trusted_key add_node
  roots_after dag dag' parent key k sig e i = elim (Bool-cases (parent =? dag.genesis_key)) [
    | inl y ↦
        let here : Sets.insert key dag.dag_root ≡ dag'.dag_root = ground arith in
        elim (Sets.In-insert key k dag.dag_root (subst (In k) (sym here) i)) [
          | inl q ↦ inr (q, eq_of_=? parent dag.genesis_key y)
          | inr j ↦ inl j
        ]
    | inr n ↦ elim (Option-cases (Map.get parent dag.hashes)) [
      | inl z ↦ absurd (ground arith)
      | inr (h, z) ↦
          let here : dag.dag_root ≡ dag'.dag_root = ground arith in inl (subst (In k) (sym here) i)
    ]
  ]

  -- No root key is lost, and a key below the genesis key becomes one.
  roots_kept :
      (dag dag' : SectionsDag) (parent key k : PublicKey) (sig : Signature)
      → verify_and_insert dag parent key sig ≡ ok dag'
      → In k dag.dag_root ⊎ ((k ≡ key) × (parent ≡ dag.genesis_key))
      → In k dag'.dag_root
  unfolding verify_and_insert insert_trusted_key add_node
  roots_kept dag dag' parent key k sig e i = elim (Bool-cases (parent =? dag.genesis_key)) [
    | inl y ↦
        let here : Sets.insert key dag.dag_root ≡ dag'.dag_root = ground arith in
        subst (In k) here
          (Sets.insert-In key k dag.dag_root (elim i [ inl j ↦ inr j | inr (q, _) ↦ inl q ]))
    | inr n ↦ elim (Option-cases (Map.get parent dag.hashes)) [
      | inl z ↦ absurd (ground arith)
      | inr (h, z) ↦
          let here : dag.dag_root ≡ dag'.dag_root = ground arith in
          elim i [
            | inl j ↦ subst (In k) here j
            | inr (_, below) ↦
                absurd (cc (n, ap (λ z. z =? dag.genesis_key) below ∙ =?-refl dag.genesis_key))
          ]
    ]
  ]

  module _ (dag dag' : SectionsDag) (parent key : PublicKey) (sig : Signature) (g : IsGrown dag)
      (absent : has_key dag key ≡ false) (e : verify_and_insert dag parent key sig ≡ ok dag') where
    below_start :
        (k : PublicKey)
        → get_parent_key dag k ≡ ok (some dag.genesis_key)
        → get_parent_key dag' k ≡ ok (some dag'.genesis_key)
    below_start k h =
        let (start, kept) = verify_and_insert-KeepsParents dag g parent key sig absent dag' e in
        kept k (has_key-of_parent dag k dag.genesis_key h) ∙ h ∙ ap (λ z. ok (some z)) (sym start)

    old_or_new :
        (k : PublicKey)
        → get_parent_key dag' k ≡ ok (some dag'.genesis_key)
        → (get_parent_key dag k ≡ ok (some dag.genesis_key))
          ⊎ ((k ≡ key) × (parent ≡ dag.genesis_key))
    old_or_new k h =
        let (start, kept) = verify_and_insert-KeepsParents dag g parent key sig absent dag' e in
        let h' = h ∙ ap (λ z. ok (some z)) start in
        elim (Bool-cases (key =? k)) [
          | inl y ↦
              let q = eq_of_=? key k y in
              let below = verify_and_insert-parent dag parent key sig dag' g absent e in
              inr (sym q, cc (below, h', q))
          | inr n ↦
              let old : has_key dag k ≡ true = ground (
                arith,
                has_key-verify_and_insert dag parent key sig dag' k e,
                has_key-of_parent dag' k dag.genesis_key h',
              ) in
              inl (sym (kept k old) ∙ h')
        ]

    pub verify_and_insert-HasRoots : HasRoots dag → HasRoots dag'
    verify_and_insert-HasRoots roots k = (
      λ i. elim (roots_after dag dag' parent key k sig e i) [
        | inl j ↦ below_start k ((roots k).0 j)
        | inr (q, below) ↦
            let (start, _) = verify_and_insert-KeepsParents dag g parent key sig absent dag' e in
            rw q (
              verify_and_insert-parent dag parent key sig dag' g absent e
              ∙ ap (λ z. ok (some z)) (below ∙ sym start))
      ],
      λ h.
          roots_kept dag dag' parent key k sig e
            (elim (old_or_new k h) [ inl j ↦ inl ((roots k).1 j) | inr both ↦ inr both ]),
    )
