-- ===== src/Dag/Insert.antt =====
-- `verify_and_insert`: when it succeeds, and what the DAG is then.
use safe_network_archive.Dag.{
  SectionsDag, SectionInfo, verify_sig, has_key, get_parent_key, add_node, insert_trusted_key,
  verify_and_insert,
}
use safe_network_archive.Dag.Chain.{IsGrown}
use safe_network_archive.Extern.{BlsKeys, PublicKey, Signature, keys_ord, MerkleReg}
use safe_network_archive.Prelude.{
  ◌≡◌, subst, ◌↔◌, inl, inr, true, false, ◌||◌, List, [], ◌∷◌, some, ok, ◌=?◌, arith, Bool-cases,
  Option-cases,
}
use safe_network_archive.Prelude.Map
use safe_network_archive.Prelude.Sets
use safe_network_archive.Dag.Grow.{with_root, insert_trusted_key-IsGrown, insert_trusted_key-parent}

module _ ⦃b : BlsKeys⦄ ⦃m : MerkleReg SectionInfo⦄ (self : SectionsDag) (parent key : PublicKey)
    (sig : Signature) where
  -- If a grown DAG accepts, by `verify_and_insert`, a key that it did not have, the DAG that it
  -- becomes is grown too: it is valid, and every key has its chain of signers to the genesis key.
  pub verify_and_insert-IsGrown :
      (self' : SectionsDag)
      → IsGrown self
      → has_key self key ≡ false
      → verify_and_insert self parent key sig ≡ ok self'
      → IsGrown self'
  unfolding verify_and_insert
  verify_and_insert-IsGrown self' g absent e = elim (Bool-cases (verify_sig parent key sig)) [
    | inl y ↦ insert_trusted_key-IsGrown self g parent key sig absent y self' (ground arith)
    | inr n ↦ absurd (ground arith)
  ]

  -- If a grown DAG accepts a key that it did not have, `get_parent_key` then gives the parent that the
  -- key was inserted below.
  pub verify_and_insert-parent :
      (self' : SectionsDag)
      → IsGrown self
      → has_key self key ≡ false
      → verify_and_insert self parent key sig ≡ ok self'
      → get_parent_key self' key ≡ ok (some parent)
  unfolding verify_and_insert
  verify_and_insert-parent self' g absent e = elim (Bool-cases (verify_sig parent key sig)) [
    | inl y ↦ insert_trusted_key-parent self g parent key sig absent y self' (ground arith)
    | inr n ↦ absurd (ground arith)
  ]

  accepted :
      verify_sig parent key sig ≡ true
      → has_key self parent ≡ true
      → (self' : SectionsDag) × (verify_and_insert self parent key sig ≡ ok self')
  unfolding verify_and_insert insert_trusted_key has_key Map.contains_key
  accepted t k = elim (Bool-cases (parent =? self.genesis_key)) [
    | inl y ↦ (add_node (with_root self (Sets.insert key self.dag_root)) key sig [], ground arith)
    | inr n ↦ elim (Option-cases (Map.get parent self.hashes)) [
      | inl z ↦ absurd (ground arith)
      | inr (h, z) ↦ (add_node self key sig (h ∷ []), ground arith)
    ]
  ]

  -- `verify_and_insert` succeeds exactly when the parent key's signature on the new key verifies and
  -- the parent key is in the DAG.
  pub verify_and_insert-ok_iff :
      ((self' : SectionsDag) × (verify_and_insert self parent key sig ≡ ok self'))
      ↔ ((verify_sig parent key sig ≡ true) × (has_key self parent ≡ true))
  unfolding verify_and_insert insert_trusted_key has_key Map.contains_key
  verify_and_insert-ok_iff = (λ p. ground arith, λ h. accepted h.0 h.1)

  has_key-add_node :
      (r : List PublicKey) (kids : List m.Hash) (j : PublicKey)
      → has_key (add_node (with_root self r) key sig kids) j ≡ (key =? j || has_key self j)
  unfolding has_key Map.contains_key add_node
  has_key-add_node r kids j =
      let n = m.write self.dag (record { key = key; sig = sig }) kids in
      ground (arith, Map.get-insert key j (m.hash n) self.hashes)

  -- After a successful `verify_and_insert` the DAG has the keys that it had and the new one.
  pub has_key-verify_and_insert :
      (self' : SectionsDag) (j : PublicKey)
      → verify_and_insert self parent key sig ≡ ok self'
      → has_key self' j ≡ (key =? j || has_key self j)
  unfolding verify_and_insert insert_trusted_key
  has_key-verify_and_insert self' j e = elim (Bool-cases (parent =? self.genesis_key)) [
    | inl y ↦
        subst (λ d. has_key d j ≡ (key =? j || has_key self j)) (ground arith)
          (has_key-add_node (Sets.insert key self.dag_root) [] j)
    | inr n ↦ elim (Option-cases (Map.get parent self.hashes)) [
      | inl z ↦ absurd (ground arith)
      | inr (h, z) ↦
          subst (λ d. has_key d j ≡ (key =? j || has_key self j)) (ground arith)
            (has_key-add_node self.dag_root (h ∷ []) j)
    ]
  ]
