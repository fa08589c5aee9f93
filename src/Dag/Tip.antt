-- ===== src/Dag/Tip.antt =====
-- The last key of a `SectionsDAG` that is one branch: the only node that no other lies on.
use safe_network_archive.Dag.{
  SectionsDag, SectionInfo, key_of, leaf_keys, last_key, non_genesis_leaf_sections,
}
use safe_network_archive.Dag.Valid.{
  IsValid, node-kept, node-cases, node-written, written, written-key, written-kids,
}
use safe_network_archive.Extern.{BlsKeys, PublicKey, Signature, keys_ord, MerkleReg}
use safe_network_archive.Extern.Merkle.{Known}
use safe_network_archive.Prelude.{
  ◌≡◌, ◌≢◌, refl, sym, ap, ◌∙◌, subst, ◌⊎◌, inl, inr, List, [], ◌∷◌, map, none, some, ok, In,
  =?-refl,
}
use safe_network_archive.Prelude.Map
use safe_network_archive.Prelude.Sets

module _ ⦃b : BlsKeys⦄ ⦃m : MerkleReg SectionInfo⦄ where
  -- Only nodes of the key have no node on them.
  abbrev pub OnlyTip : m.Reg → PublicKey → Type 0
  OnlyTip r key =
      (n : m.Node) → m.node r (m.hash n) ≡ some n → m.parents r (m.hash n) ≡ [] → key_of n ≡ key

  abbrev pub IsTip : m.Reg → m.Node → Type 0
  IsTip r p = (m.node r (m.hash p) ≡ some p) × (m.parents r (m.hash p) ≡ []) × OnlyTip r (key_of p)

  empty_of : {A : Type 0} (xs : List A) → ((a : A) → In a xs → ⊥) → xs ≡ []
  empty_of [] h = refl
  empty_of (x ∷ xs) h = absurd (h x (inl refl))

  pub member_cases : {A : Type 0} (xs : List A) → (xs ≡ []) ⊎ ((a : A) × In a xs)
  member_cases [] = inl refl
  member_cases (x ∷ xs) = inr (x, inl refl)

  -- An insertion on the tip, or into a register without nodes, makes the new node the tip.
  module _ (self : SectionsDag) (v : IsValid self) (key : PublicKey) (sig : Signature)
      (kids : List m.Hash) (fresh : Map.get key self.hashes ≡ none) (ne : key ≢ self.genesis_key)
      (known : Known (m.node self.dag) kids) where
    abbrev w : m.Node
    w = written self v key sig kids fresh ne known

    abbrev r : m.Reg
    r = m.apply w self.dag

    -- The new node is none of the old ones.
    new_node : (n : m.Node) → m.node self.dag (m.hash n) ≡ some n → n ≢ w
    new_node n e q =
        cc (v.keyed (m.hash n) n e, fresh, q, written-key self v key sig kids fresh ne known)

    no_old_below :
        (n : m.Node) → m.node self.dag (m.hash n) ≡ some n → In (m.hash w) (m.children_of n) → ⊥
    no_old_below n e i = elim (v.signed (m.hash n) n e) [
      | inl (c, _) ↦ subst (In (m.hash w)) c i
      | inr (h, q, c, f, _) ↦ elim (subst (In (m.hash w)) c i) [
        | inl a ↦
            let g = m.node-hash self.dag h q f in
            new_node q (subst (λ z. m.node self.dag z ≡ some q) (sym g) f)
              (m.hash_injective q w (g ∙ sym a))
        | inr a ↦ a
      ]
    ]

    no_parents : (In (m.hash w) kids → ⊥) → m.parents r (m.hash w) ≡ []
    no_parents apart = empty_of (m.parents r (m.hash w)) (λ n i.
        let (e, c) = (m.parents_iff r (m.hash w) n).0 i in
        elim (node-cases self v key sig kids fresh ne known (m.hash n) n e) [
          | inl (_, q) ↦ apart (
              subst (In (m.hash w))
                (ap m.children_of q ∙ written-kids self v key sig kids fresh ne known) c)
          | inr old ↦ no_old_below n old c
        ])

    OnlyTip-after :
        ((n : m.Node) → m.node self.dag (m.hash n) ≡ some n → m.parents r (m.hash n) ≢ [])
        → OnlyTip r (key_of w)
    OnlyTip-after covered n e none_on =
        elim (node-cases self v key sig kids fresh ne known (m.hash n) n e) [
          | inl (_, q) ↦ ap key_of q
          | inr old ↦ absurd (covered n old none_on)
        ]

    pub first-IsTip : kids ≡ [] → ((n : m.Node) → m.node self.dag (m.hash n) ≢ some n) → IsTip r w
    first-IsTip c empty = (
      node-written self v key sig kids fresh ne known,
      no_parents (λ i. subst (In (m.hash w)) c i),
      OnlyTip-after (λ n e. absurd (empty n e)),
    )

    below :
        (n a : m.Node)
        → m.node r (m.hash a) ≡ some a
        → In (m.hash n) (m.children_of a)
        → m.parents r (m.hash n) ≢ []
    below n a e c none_on = subst (In a) none_on ((m.parents_iff r (m.hash n) a).1 (e, c))

    covered :
        (p : m.Node)
        → kids ≡ m.hash p ∷ []
        → IsTip self.dag p
        → (n : m.Node) → m.node self.dag (m.hash n) ≡ some n
        → m.parents r (m.hash n) ≢ []
    covered p c (e, top, only) n old = elim (member_cases (m.parents self.dag (m.hash n))) [
      | inr (a, i) ↦
          let (f, g) = (m.parents_iff self.dag (m.hash n) a).0 i in
          below n a (node-kept self v key sig kids fresh ne known (m.hash a) a f) g
      | inl z ↦
          let same : m.hash n ≡ m.hash p =
            cc (v.keyed (m.hash n) n old, v.keyed (m.hash p) p e, only n old z) in
          below n w (node-written self v key sig kids fresh ne known) (
            subst (In (m.hash n)) (sym (written-kids self v key sig kids fresh ne known ∙ c))
              (inl same))
    ]

    pub next-IsTip : (p : m.Node) → kids ≡ m.hash p ∷ [] → IsTip self.dag p → IsTip r w
    next-IsTip p c (e, top, only) =
        let apart : In (m.hash w) kids → ⊥ = λ i. elim (subst (In (m.hash w)) c i) [
          | inl a ↦ new_node p e (m.hash_injective p w (sym a))
          | inr a ↦ a
        ] in
        (
          node-written self v key sig kids fresh ne known,
          no_parents apart,
          OnlyTip-after (λ n old. covered p c (e, top, only) n old),
        )

  -- The last key of a DAG with a tip is the tip's.
  from_iter-constant :
      (k : PublicKey) (n : m.Node) (ns : List m.Node)
      → ((a : m.Node) → In a (n ∷ ns) → key_of a ≡ k)
      → Sets.from_iter (map (λ i. SectionInfo.key i) (map m.value (n ∷ ns))) ≡ k ∷ []
  unfolding Sets.from_iter Sets.insert
  from_iter-constant k n [] h = ap (λ z. z ∷ []) (h n (inl refl))
  from_iter-constant k n (a ∷ ns) h =
      rw (h n (inl refl), from_iter-constant k a ns (λ c i. h c (inr i)), =?-refl k)

  last_key_of :
      (self : SectionsDag) (k : PublicKey) → leaf_keys self ≡ k ∷ [] → last_key self ≡ ok k
  unfolding last_key
  last_key_of self k e = rw (last_key, e)

  pub last_key-IsTip :
      (self : SectionsDag) (p : m.Node) → IsTip self.dag p → last_key self ≡ ok (key_of p)
  unfolding last_key leaf_keys non_genesis_leaf_sections
  last_key-IsTip self p (e, top, only) = of_read (m.read self.dag) refl
    where
      of_read : (ns : List m.Node) → m.read self.dag ≡ ns → last_key self ≡ ok (key_of p)
      of_read [] q = absurd (subst (In p) q ((m.read_iff self.dag p).1 (e, top)))
      of_read (n ∷ ns) q =
          let all_tip : (a : m.Node) → In a (n ∷ ns) → key_of a ≡ key_of p =
            λ a i. let (f, g) = (m.read_iff self.dag a).0 (subst (In a) (sym q) i) in only a f g in
          last_key_of self (key_of p) (
            rw (leaf_keys, non_genesis_leaf_sections, q)
              (from_iter-constant (key_of p) n ns all_tip))

  pub last_key-empty :
      (self : SectionsDag)
      → ((n : m.Node) → m.node self.dag (m.hash n) ≢ some n)
      → last_key self ≡ ok self.genesis_key
  unfolding last_key leaf_keys non_genesis_leaf_sections
  last_key-empty self empty = last_key_of self self.genesis_key (
      rw (
        leaf_keys,
        non_genesis_leaf_sections,
        empty_of (m.read self.dag) (λ a i. empty a ((m.read_iff self.dag a).0 i).0),
      ))
