-- ===== src/Knowledge/Update.antt =====
-- What an update of the section tree changes in the network knowledge, and when the node's own section
-- stays in step with the tree.
use safe_network_archive.Dag.{SectionsDag, SectionInfo}
use safe_network_archive.Dag.Walk.{partial_dag, get_ancestors}
use safe_network_archive.Errors.{Error, Outcome}
use safe_network_archive.Extern.{
  BlsKeys, PublicKey, XorNames, XorName, Prefix, Triggers, MerkleReg, Decisions,
}
use safe_network_archive.History
use safe_network_archive.History.{
  elder_churn_events_to_prune_archive, SectionMemberHistory, prune_members_archive, signed_by_any,
}
use safe_network_archive.Knowledge.{
  NetworkKnowledge, sap_members, prefix, reset_initial_members, prune_and_switch,
  switch_own_section, adopt_update, update_sap_knowledge_if_valid, closest_signed_sap,
}
use safe_network_archive.Prelude.Map
use safe_network_archive.Prelude.{
  fueled_cases, ℕ, ◌≡◌, refl, sym, ap, ◌∙◌, subst, ◌⊎◌, inl, inr, Bool, true, false, [], none, some,
  Option, ok, err, ◌=?◌, Ord, if◌then◌else◌, arith, Bool-cases, =?-refl, =?_of_ne, In, ◌≢◌,
  In-select, select, take, ◌++◌, ◌-◌, ◌∷◌,
}
use safe_network_archive.Sap.{NodeState, SignedSap, Bincode}
use safe_network_archive.Tree.{
  SectionTree, SectionTreeUpdate, get_signed, sap_prefix, sap_key, update_the_section_tree,
}
use safe_network_archive.Tree.Insert.{insert-get, insert-entered}
use safe_network_archive.Tree.Update.{update-accepted, update-ok_false}

module _ ⦃b : BlsKeys⦄ ⦃m : MerkleReg SectionInfo⦄ ⦃x : XorNames⦄ ⦃t : Triggers⦄
    ⦃d : Decisions NodeState⦄ ⦃c : Bincode⦄ where
  instance abbrev prefix_order : Ord x.Prefix
  prefix_order = x.prefix_ord

  -- The section and its members are as before.
  abbrev KeepsSection : NetworkKnowledge → NetworkKnowledge → Type 0
  KeepsSection self self' =
      (self'.signed_sap ≡ self.signed_sap) × (self'.section_members ≡ self.section_members)

  -- The section is the given one, with its members and no decision yet, and what is left of the
  -- archive are names of its prefix.
  abbrev pub Switched : NetworkKnowledge → NetworkKnowledge → SignedSap → Type 0
  Switched self self' signed_sap =
      (self'.signed_sap ≡ signed_sap)
      × (SectionMemberHistory.initial_members self'.section_members ≡ sap_members signed_sap)
      × (SectionMemberHistory.decisions self'.section_members ≡ [])
      × ((e : XorName × d.Decision)
          → In e (SectionMemberHistory.archive self'.section_members)
          → In e (SectionMemberHistory.archive self.section_members)
            × (x.matches (sap_prefix signed_sap) e.0 ≡ true))

  prune_members_archive-ok :
      (fuel : ℕ) (self self' : SectionMemberHistory) (proof_chain : SectionsDag)
      (last_key : PublicKey)
      → prune_members_archive fuel self proof_chain last_key ≡ some (ok self')
      → (self'.initial_members ≡ self.initial_members)
        × (self'.decisions ≡ self.decisions)
        × ((e : XorName × d.Decision) → In e self'.archive → In e self.archive)
  unfolding prune_members_archive
  prune_members_archive-ok fuel self self' proof_chain last_key h =
      elim (fueled_cases (get_ancestors fuel proof_chain last_key)) [
        | inl p ↦ absurd (cc (rw (p, prune_members_archive) at h))
        | inr (inl (e, p)) ↦ absurd (cc (rw (p, prune_members_archive) at h))
        | inr (inr (ancestors, p)) ↦
            let keys = take (elder_churn_events_to_prune_archive - 1) ancestors ++ last_key ∷ [] in
            let kept = select (λ e. signed_by_any keys e.1) self.archive in
            let e : record self { archive = kept } ≡ self' =
              cc (rw (p, prune_members_archive) at h) in
            (
              sym (ap SectionMemberHistory.initial_members e),
              sym (ap SectionMemberHistory.decisions e),
              λ entry i.
                  (In-select (λ e. signed_by_any keys e.1) entry self.archive
                    (subst (λ s. In entry (SectionMemberHistory.archive s)) (sym e) i)).0,
            )
      ]

  prune_and_switch-ok :
      (fuel : ℕ) (self self' : NetworkKnowledge) (signed_sap : SignedSap) (r : Bool)
      → prune_and_switch fuel self signed_sap ≡ some (self', ok r)
      → (pruned : SectionMemberHistory) × (proof_chain : SectionsDag) × (prune_members_archive fuel
            self.section_members proof_chain
            (sap_key signed_sap)
          ≡ some (ok pruned))
        × (r ≡ true)
        × (self' ≡ record self { signed_sap = signed_sap; section_members = pruned })
  unfolding prune_and_switch
  prune_and_switch-ok fuel self self' signed_sap r h =
      let dag = SectionTree.sections_dag self.section_tree in
      elim (fueled_cases (partial_dag fuel dag dag.genesis_key (sap_key signed_sap))) [
        | inl p ↦ absurd (cc (rw (p, prune_and_switch) at h))
        | inr (inl (e, p)) ↦ absurd (cc (rw (p, prune_and_switch) at h))
        | inr (inr (proof_chain, p)) ↦
            elim (fueled_cases
              (prune_members_archive fuel self.section_members proof_chain (sap_key signed_sap))) [
                | inl q ↦ absurd (cc (rw (p, prune_and_switch, q) at h))
                | inr (inl (e, q)) ↦ absurd (cc (rw (p, prune_and_switch, q) at h))
                | inr (inr (pruned, q)) ↦
                    let e = rw (p, prune_and_switch, q) at h in (pruned, proof_chain, q, cc e, cc e)
              ]
      ]

  switch_own_section-result :
      (fuel : ℕ) (self self' : NetworkKnowledge) (signed_sap : SignedSap) (r : Bool)
      → switch_own_section fuel self signed_sap ≡ some (self', ok r)
      → (r ≡ true) × (self'.section_tree ≡ self.section_tree) × Switched self self' signed_sap
  unfolding switch_own_section reset_initial_members History.reset_initial_members History.retain
  switch_own_section-result fuel self self' signed_sap r h =
      let kept =
        History.retain (History.reset_initial_members self.section_members (sap_members signed_sap))
          (sap_prefix signed_sap) in
      let (pruned, proof_chain, q, t, e) =
        prune_and_switch-ok fuel (record self { section_members = kept }) self' signed_sap r h in
      let (i, ds, a) =
        prune_members_archive-ok fuel kept pruned proof_chain (sap_key signed_sap) q in
      (
        t,
        ap (λ s. NetworkKnowledge.section_tree s) e,
        (
          ap (λ s. NetworkKnowledge.signed_sap s) e,
          ap (λ s. SectionMemberHistory.initial_members (NetworkKnowledge.section_members s)) e ∙ i,
          ap (λ s. SectionMemberHistory.decisions (NetworkKnowledge.section_members s)) e ∙ ds,
          λ entry j.
              In-select (λ p. x.matches (sap_prefix signed_sap) p.0) entry
                (SectionMemberHistory.archive self.section_members)
                (a entry (
                  subst
                    (λ s.
                      In entry (SectionMemberHistory.archive (NetworkKnowledge.section_members s)))
                    e j)),
        ),
      )

  adopt_update-result :
      (fuel : ℕ) (self self' : NetworkKnowledge) (signed_sap : SignedSap) (our_name : XorName)
      (tree : SectionTree) (taken r : Bool)
      → adopt_update fuel self signed_sap our_name (tree, ok taken) ≡ some (self', ok r)
      → (r ≡ taken)
        × (self'.section_tree ≡ tree)
        × (if taken
            then if x.matches (sap_prefix signed_sap) our_name
              then Switched self self' signed_sap
              else KeepsSection self self'
            else KeepsSection self self')
  unfolding adopt_update
  adopt_update-result fuel self self' signed_sap our_name tree false r h =
      let e : record self { section_tree = tree } ≡ self' = ground arith in
      let t : r ≡ false = ground arith in
      (
        t,
        sym (ap (λ s. NetworkKnowledge.section_tree s) e),
        (
          sym (ap (λ s. NetworkKnowledge.signed_sap s) e),
          sym (ap (λ s. NetworkKnowledge.section_members s) e),
        ),
      )
  adopt_update-result fuel self self' signed_sap our_name tree true r h =
      elim (Bool-cases (x.matches (sap_prefix signed_sap) our_name)) [
        | inl y ↦ rw y (
            switch_own_section-result fuel (record self { section_tree = tree }) self' signed_sap r
              (rw (y, adopt_update) at h))
        | inr n ↦
            let g = rw (n, adopt_update) at h in
            let e : record self { section_tree = tree } ≡ self' = cc g in
            rw n (
              cc g,
              sym (ap (λ s. NetworkKnowledge.section_tree s) e),
              (
                sym (ap (λ s. NetworkKnowledge.signed_sap s) e),
                sym (ap (λ s. NetworkKnowledge.section_members s) e),
              ),
            )
      ]

  tree_cases :
      (o : Option (SectionTree × Outcome Bool))
      → (o ≡ none)
        ⊎ (((tree : SectionTree) × (e : Error) × (o ≡ some (tree, err e)))
            ⊎ ((tree : SectionTree) × (r : Bool) × (o ≡ some (tree, ok r))))
  tree_cases none = inl refl
  tree_cases (some (tree, err e)) = inr (inl (tree, e, refl))
  tree_cases (some (tree, ok r)) = inr (inr (tree, r, refl))

  adopt_update-err :
      (fuel : ℕ) (self self' : NetworkKnowledge) (signed_sap : SignedSap) (our_name : XorName)
      (tree : SectionTree) (e : Error) (r : Bool)
      → adopt_update fuel self signed_sap our_name (tree, err e) ≢ some (self', ok r)
  unfolding adopt_update
  adopt_update-err fuel self self' signed_sap our_name tree e r h = cc h

  -- When `update_sap_knowledge_if_valid` succeeds, so did `update_the_section_tree`, whose tree and
  -- answer it takes over. Its own section changes only when the tree has the new section and its
  -- prefix matches the node's name: it is then that section, with the section's members, no decision,
  -- and of the archive at most the names of the new prefix. Otherwise the section and its members
  -- stay.
  pub update_sap-ok :
      (fuel : ℕ) (self self' : NetworkKnowledge) (update : SectionTreeUpdate) (our_name : XorName)
      (r : Bool)
      → update_sap_knowledge_if_valid fuel self update our_name ≡ some (self', ok r)
      → (update_the_section_tree fuel self.section_tree update ≡ some (self'.section_tree, ok r))
        × (if r
            then if x.matches (sap_prefix update.signed_sap) our_name
              then Switched self self' update.signed_sap
              else KeepsSection self self'
            else KeepsSection self self')
  unfolding update_sap_knowledge_if_valid
  update_sap-ok fuel self self' update our_name r h =
      elim (tree_cases (update_the_section_tree fuel self.section_tree update)) [
        | inl p ↦ absurd (cc (rw (p, update_sap_knowledge_if_valid) at h))
        | inr (inl (tree, e, p)) ↦ absurd (
            adopt_update-err fuel self self' update.signed_sap our_name tree e r
              (rw (p, update_sap_knowledge_if_valid) at h))
        | inr (inr (tree, taken, p)) ↦
            let (t, same, kept) =
              adopt_update-result fuel self self' update.signed_sap our_name tree taken r
                (rw (p, update_sap_knowledge_if_valid) at h) in
            rw (same, t) (p, kept)
      ]

  -- The node's own section is the one that the tree has for its prefix, which matches its name.
  abbrev pub IsInStep : NetworkKnowledge → XorName → Type 0
  IsInStep self our_name =
      (get_signed self.section_tree (prefix self) ≡ some self.signed_sap)
      × (x.matches (prefix self) our_name ≡ true)

  enters :
      (fuel : ℕ) (tree tree' : SectionTree) (update : SectionTreeUpdate) (q : Prefix)
      → update_the_section_tree fuel tree update ≡ some (tree', ok true)
      → get_signed tree' q ≡ (
          if sap_prefix update.signed_sap =? q
          then some update.signed_sap
          else if x.is_extension_of (sap_prefix update.signed_sap) q
          then none
          else get_signed tree q)
  unfolding get_signed
  enters fuel tree tree' update q h =
      let (_, _, _, _, _, i, s) = update-accepted fuel tree tree' update h in
      let free = insert-entered tree update.signed_sap i in
      ap (Map.get q) s ∙ (insert-get tree update.signed_sap q free).2

  differs :
      (p q : Prefix) (n : XorName) → x.matches q n ≡ true → x.matches p n ≡ false → (p =? q) ≡ false
  differs p q n y z = =?_of_ne p q (λ e. cc (y, z, ap (λ r. x.matches r n) e))

  longer : (p q : Prefix) → x.is_extension_of p q ≡ true → (p =? q) ≡ false
  longer p q e =
      =?_of_ne p q (λ s. omega (arith, x.extension_longer p q e, ap (λ r. x.bit_count r) s))

  -- A node whose section is the one that the tree has for its prefix, which matches the node's name,
  -- stays so after a successful update, if the update's prefix, where it extends that of the node's
  -- section, matches the node's name.
  pub update_sap-IsInStep :
      (fuel : ℕ) (self self' : NetworkKnowledge) (update : SectionTreeUpdate) (our_name : XorName)
      (r : Bool)
      → IsInStep self our_name
      → (x.is_extension_of (sap_prefix update.signed_sap) (prefix self) ≡ true
          → x.matches (sap_prefix update.signed_sap) our_name ≡ true)
      → update_sap_knowledge_if_valid fuel self update our_name ≡ some (self', ok r)
      → IsInStep self' our_name
  unfolding get_signed
  update_sap-IsInStep fuel self self' update our_name false (g, w) c h =
      let (p, (s, _)) = update_sap-ok fuel self self' update our_name false h in
      let same = update-ok_false fuel self.section_tree self'.section_tree update p in
      rw (s, same) (g, w)
  update_sap-IsInStep fuel self self' update our_name true (g, w) c h =
      let own = sap_prefix update.signed_sap in
      let (p, k) = update_sap-ok fuel self self' update our_name true h in
      let entered = λ (q : Prefix). enters fuel self.section_tree self'.section_tree update q p in
      elim (Bool-cases (x.matches own our_name)) [
        | inl y ↦ let (s, _, _, _) = rw y at k in rw s (ground (arith, entered own, =?-refl own), y)
        | inr n ↦
            let (s, _) = rw n at k in
            let apart : (own =? prefix self) ≡ false = differs own (prefix self) our_name w n in
            let short : x.is_extension_of own (prefix self) ≡ false = ground (arith) in
            rw s (ground (arith, entered (prefix self)), w)
      ]

  closest-none :
      (self : NetworkKnowledge) (name : XorName)
      → get_signed self.section_tree (prefix self) ≡ none
      → closest_signed_sap self name ≡ none
  unfolding closest_signed_sap
  closest-none self name h = rw (closest_signed_sap, h)

  -- A section whose prefix extends that of the node's own and does not match the node's name removes
  -- the node's own section from the tree when it is taken; `closest_signed_sap` then finds none for
  -- any name.
  pub update_sap-lost :
      (fuel : ℕ) (self self' : NetworkKnowledge) (update : SectionTreeUpdate)
      (our_name name : XorName)
      → x.is_extension_of (sap_prefix update.signed_sap) (prefix self) ≡ true
      → x.matches (sap_prefix update.signed_sap) our_name ≡ false
      → update_sap_knowledge_if_valid fuel self update our_name ≡ some (self', ok true)
      → (self'.signed_sap ≡ self.signed_sap) × (closest_signed_sap self' name ≡ none)
  unfolding closest_signed_sap
  update_sap-lost fuel self self' update our_name name e n h =
      let own = sap_prefix update.signed_sap in
      let (p, k) = update_sap-ok fuel self self' update our_name true h in
      let (s, _) = rw n at k in
      let apart : (own =? prefix self) ≡ false = longer own (prefix self) e in
      let gone = enters fuel self.section_tree self'.section_tree update (prefix self) p in
      let held = closest-none self' name (
        ap (λ z. get_signed self'.section_tree (sap_prefix z)) s
        ∙ gone
        ∙ ground (arith, apart, e)) in
      (s, held)
