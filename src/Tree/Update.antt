-- ===== src/Tree/Update.antt =====
-- What `update_the_section_tree` accepts and what it leaves behind.
use safe_network_archive.Dag.{SectionInfo, SectionsDag, has_key, last_key}
use safe_network_archive.Dag.Walk.{merge, self_verify as dag_verify}
use safe_network_archive.Errors.{Error, Outcome, untrusted_proof_chain, key_not_found}
use safe_network_archive.Extern.{BlsKeys, XorNames, Triggers, MerkleReg}
use safe_network_archive.Prelude.{
  Ord, ℕ, ◌≡◌, ◌≢◌, refl, sym, ap, ◌∙◌, subst, ◌⊎◌, inl, inr, Bool, true, false, not, some, ok, err,
  ◌>>=◌, ◌=?◌, if◌then◌else◌, arith, Bool-cases, eq_of_=?,
}
use safe_network_archive.Sap.{SectionSigned, Bincode, self_verify}
use safe_network_archive.Tree.{
  SectionTree, SectionTreeUpdate, sap_prefix, sap_key, insert, get_signed, check_chain, check_sap,
  apply_update, merge_chain, update_the_section_tree,
}
use safe_network_archive.Tree.Insert.{
  IsDisjoint, has_extension, insert-IsDisjoint, insert-get, insert-ok_false,
}

module _ ⦃b : BlsKeys⦄ ⦃m : MerkleReg SectionInfo⦄ ⦃x : XorNames⦄ ⦃t : Triggers⦄ where
  instance abbrev keys_order : Ord b.PublicKey
  keys_order = b.key_ord

  instance abbrev prefixes : Ord x.Prefix
  prefixes = x.prefix_ord

  last_is :
      (o : Outcome b.PublicKey) (k : b.PublicKey) (e : Error)
      → (o >>= λ last. if not (last =? k) then err e else ok tt) ≡ ok tt
      → o ≡ ok k
  last_is (ok last) k e h = ap ok (eq_of_=? last k (ground arith))
  last_is (err f) k e h = cc

  -- What `check_sap` checks: the section's signature on itself, and the end of the proof chain.
  check_sap-ok :
      ⦃c : Bincode⦄ (update : SectionTreeUpdate)
      → check_sap update ≡ ok tt
      → (self_verify update.signed_sap ≡ true)
        × (SectionSigned.public_key update.signed_sap ≡ sap_key update.signed_sap)
        × (last_key update.proof_chain ≡ ok (sap_key update.signed_sap))
  unfolding check_sap
  check_sap-ok update h = elim (Bool-cases (self_verify update.signed_sap)) [
    | inr n ↦ absurd (ground arith)
    | inl v ↦
        elim (Bool-cases
          (SectionSigned.public_key update.signed_sap =? sap_key update.signed_sap)) [
            | inr n ↦ absurd (ground arith)
            | inl y ↦ (
              v,
              eq_of_=? (SectionSigned.public_key update.signed_sap) _ y,
              last_is (last_key update.proof_chain) _ untrusted_proof_chain
                  (rw (v, y, if◌then◌else◌) at h),
            )
          ]
  ]

  Outcome-cases : (o : Outcome (Unit {0})) → (o ≡ ok tt) ⊎ ((e : Error) × (o ≡ err e))
  Outcome-cases (ok tt) = inl refl
  Outcome-cases (err e) = inr (e, refl)

  merge_chain-sections :
      (fuel : ℕ) (chain : SectionsDag) (self self' : SectionTree) (inserted : Bool)
      (result : Outcome Bool)
      → merge_chain fuel chain self inserted ≡ some (self', result)
      → (self'.sections ≡ self.sections) × (result ≡ ok true → inserted ≡ true)
  unfolding merge_chain
  merge_chain-sections fuel chain self self' false result h = ground arith
  merge_chain-sections fuel chain self self' true result h = ground arith

  -- The end of an update: its sections are those of `insert`, and `true` means an insertion.
  apply_update-sections :
      (fuel : ℕ) (self self' : SectionTree) (update : SectionTreeUpdate) (result : Outcome Bool)
      → apply_update fuel self update ≡ some (self', result)
      → (self'.sections ≡ SectionTree.sections (insert self update.signed_sap).0)
        × (result ≡ ok true → (insert self update.signed_sap).1 ≡ true)
  unfolding apply_update
  apply_update-sections fuel self self' update result h =
      merge_chain-sections fuel update.proof_chain (insert self update.signed_sap).0 self'
        (insert self update.signed_sap).1 result h

  module _ ⦃c : Bincode⦄ (fuel : ℕ) (self : SectionTree) (update : SectionTreeUpdate) where
    -- The update is refused with the tree unchanged, or all its checks hold and it is applied.
    update_cases :
        ((result : Outcome Bool) × (update_the_section_tree fuel self update ≡ some (self, result))
          × (result ≢ ok true))
        ⊎ ((has_key self.sections_dag (sap_key update.signed_sap) ≡ false)
            × (check_chain self update ≡ ok tt)
            × (check_sap update ≡ ok tt)
            × (update_the_section_tree fuel self update ≡ apply_update fuel self update))
    unfolding update_the_section_tree
    update_cases = elim (Bool-cases (has_key self.sections_dag (sap_key update.signed_sap))) [
      | inl y ↦ inl (ok false, rw y, λ e. cc)
      | inr z ↦ elim (Outcome-cases (check_chain self update)) [
        | inr (e, p) ↦ inl (err e, rw (z, p), λ q. cc)
        | inl p ↦ elim (Outcome-cases (check_sap update)) [
          | inr (e, q) ↦ inl (err e, rw (z, p, q), λ r. cc)
          | inl q ↦ inr (z, p, q, rw (z, p, q))
        ]
      ]
    ]

  -- `update_the_section_tree` returns `Ok(true)` only when the section's key is new, the chain passes
  -- the checks against what is known, the section's signature verifies, its key is the section's and
  -- the chain's last key, and `insert` enters the section; the sections are then those of `insert`.
  pub update-accepted :
      ⦃c : Bincode⦄ (fuel : ℕ) (self self' : SectionTree) (update : SectionTreeUpdate)
      → update_the_section_tree fuel self update ≡ some (self', ok true)
      → (has_key self.sections_dag (sap_key update.signed_sap) ≡ false)
        × (check_chain self update ≡ ok tt)
        × (self_verify update.signed_sap ≡ true)
        × (SectionSigned.public_key update.signed_sap ≡ sap_key update.signed_sap)
        × (last_key update.proof_chain ≡ ok (sap_key update.signed_sap))
        × ((insert self update.signed_sap).1 ≡ true)
        × (self'.sections ≡ SectionTree.sections (insert self update.signed_sap).0)
  update-accepted fuel self self' update h = elim (update_cases fuel self update) [
    | inl (result, e, n) ↦ absurd (n (cc (sym e ∙ h)))
    | inr (new, chain, sap, e) ↦
        let (v, k, l) = check_sap-ok update sap in
        let (s, i) = apply_update-sections fuel self self' update (ok true) (sym e ∙ h) in
        (new, chain, v, k, l, i refl, s)
  ]

  merge_chain-ok_false :
      (fuel : ℕ) (chain : SectionsDag) (self self' : SectionTree) (inserted : Bool)
      → merge_chain fuel chain self inserted ≡ some (self', ok false)
      → inserted ≡ false
  unfolding merge_chain
  merge_chain-ok_false fuel chain self self' false h = refl
  merge_chain-ok_false fuel chain self self' true h = ground arith

  -- An update that returns `Ok(false)` leaves the sections as they are.
  pub update-ok_false :
      ⦃c : Bincode⦄ (fuel : ℕ) (self self' : SectionTree) (update : SectionTreeUpdate)
      → update_the_section_tree fuel self update ≡ some (self', ok false)
      → self'.sections ≡ self.sections
  unfolding apply_update
  update-ok_false fuel self self' update h = elim (update_cases fuel self update) [
    | inl (result, e, n) ↦ cc (sym e ∙ h)
    | inr (new, chain, sap, e) ↦
        let applied = sym e ∙ h in
        let inserted =
          merge_chain-ok_false fuel update.proof_chain (insert self update.signed_sap).0 self'
            (insert self update.signed_sap).1 applied in
        (apply_update-sections fuel self self' update (ok false) applied).0
        ∙ insert-ok_false self update.signed_sap inserted
  ]

  -- If no known prefix extends another, that is so after `update_the_section_tree` too, whatever its
  -- result is.
  pub update-IsDisjoint :
      ⦃c : Bincode⦄ (fuel : ℕ) (self self' : SectionTree) (update : SectionTreeUpdate)
      (result : Outcome Bool)
      → IsDisjoint self.sections
      → update_the_section_tree fuel self update ≡ some (self', result)
      → IsDisjoint self'.sections
  update-IsDisjoint fuel self self' update result d h = elim (update_cases fuel self update) [
    | inl (r, e, n) ↦
        let same : self.sections ≡ self'.sections = cc (sym e ∙ h) in subst IsDisjoint same d
    | inr (new, chain, sap, e) ↦
        let (s, i) = apply_update-sections fuel self self' update result (sym e ∙ h) in
        subst IsDisjoint (sym s) (insert-IsDisjoint self update.signed_sap d)
  ]

  module _ ⦃c : Bincode⦄ (fuel : ℕ) (self : SectionTree) (update : SectionTreeUpdate)
      (new : has_key self.sections_dag (sap_key update.signed_sap) ≡ false)
      (chain : check_chain self update ≡ ok tt) (sap : check_sap update ≡ ok tt)
      (inserted : (insert self update.signed_sap).1 ≡ true)
      (same : SectionTree.sections_dag (insert self update.signed_sap).0 ≡ self.sections_dag)
      (verified : dag_verify fuel update.proof_chain ≡ some true)
      (foreign : has_key self.sections_dag update.proof_chain.genesis_key ≡ false)
      (foreign' : has_key update.proof_chain self.sections_dag.genesis_key ≡ false) where
    foreign_merge :
        (dag : SectionsDag)
        → dag ≡ self.sections_dag
        → merge fuel dag update.proof_chain
          ≡ some (dag, err (key_not_found self.sections_dag.genesis_key))
    unfolding merge
    foreign_merge dag e = rw (verified, merge, e, foreign, foreign')

    half_done_result :
        update_the_section_tree fuel self update
        ≡ some
            ((insert self update.signed_sap).0, err (key_not_found self.sections_dag.genesis_key))
    unfolding update_the_section_tree apply_update merge_chain
    half_done_result =
        let tree = (insert self update.signed_sap).0 in
        rw (
          new,
          chain,
          sap,
          inserted,
          merge_chain,
          foreign_merge (SectionTree.sections_dag tree) same,
        )

  pub entered :
      (self : SectionTree) (update : SectionTreeUpdate)
      → has_extension self update.signed_sap ≡ false
      → get_signed (insert self update.signed_sap).0 (sap_prefix update.signed_sap)
        ≡ some update.signed_sap
  unfolding get_signed
  entered self update ext =
      let p = sap_prefix update.signed_sap in
      ground (arith, insert-get self update.signed_sap p ext, x.prefix_ord.beq_iff p p)

  -- If an update's section has a new key, its chain and its section pass all checks, no known prefix
  -- extends its prefix, and the chain verifies but its genesis key is not in the DAG and the DAG's is
  -- not in the chain, then the update returns an error, and the tree has the section although the DAG
  -- does not have the section's key.
  pub update-half_done :
      ⦃c : Bincode⦄ (fuel : ℕ) (self : SectionTree) (update : SectionTreeUpdate)
      → has_key self.sections_dag (sap_key update.signed_sap) ≡ false
      → check_chain self update ≡ ok tt
      → check_sap update ≡ ok tt
      → has_extension self update.signed_sap ≡ false
      → dag_verify fuel update.proof_chain ≡ some true
      → has_key self.sections_dag update.proof_chain.genesis_key ≡ false
      → has_key update.proof_chain self.sections_dag.genesis_key ≡ false
      → (self' : SectionTree) × (update_the_section_tree fuel self update
          ≡ some (self', err (key_not_found self.sections_dag.genesis_key)))
        × (get_signed self' (sap_prefix update.signed_sap) ≡ some update.signed_sap)
        × (has_key self'.sections_dag (sap_key update.signed_sap) ≡ false)
  update-half_done fuel self update new chain sap ext verified foreign foreign' =
      let sap_prefix' = sap_prefix update.signed_sap in
      let (inserted, same, got) = insert-get self update.signed_sap sap_prefix' ext in
      (
        (insert self update.signed_sap).0,
        half_done_result fuel self update new chain sap inserted same verified foreign foreign',
        entered self update ext,
        rw same new,
      )
