-- ===== src/Tree.antt =====
-- `SectionTree` of sn_interface/src/network_knowledge/section_tree/mod.rs: the latest known section
-- of each prefix, and the DAG of the section keys. An update must come with a proof chain.
pub mod Insert
pub mod Update
use safe_network_archive.Dag.{SectionsDag, SectionInfo, has_key, last_key, check_trust, keys}
use safe_network_archive.Dag
use safe_network_archive.Dag.Walk.{merge, partial_dag}
use safe_network_archive.Errors.{
  Error, Outcome, non_genesis_sap, no_matching_section, untrusted_proof_chain,
  untrusted_section_auth_provider, sap_key_not_covered_by_proof_chain,
}
use safe_network_archive.Extern.{BlsKeys, PublicKey, XorNames, XorName, Prefix, Triggers, MerkleReg}
use safe_network_archive.Prelude.{
  Ord, ℕ, zero, suc, ◌≡◌, refl, Bool, true, false, not, List, [], ◌∷◌, map, Option, none, some,
  Result, ok, err, ◌>>=◌, ◌=?◌, ok_or, any, find, length, if◌then◌else◌, leb, ltb, arith, is_some,
  select,
}
use safe_network_archive.Prelude.Map
use safe_network_archive.Sap.{
  SectionAuthorityProvider, SignedSap, SectionSigned, Bincode, section_key, self_verify,
}

module _ ⦃b : BlsKeys⦄ ⦃m : MerkleReg SectionInfo⦄ ⦃x : XorNames⦄ ⦃t : Triggers⦄ where
  instance abbrev key_order : Ord b.PublicKey
  key_order = b.key_ord

  instance abbrev prefix_order : Ord x.Prefix
  prefix_order = x.prefix_ord

  abbrev pub Sections : Type 0
  Sections = List (Prefix × SignedSap)

  pub record SectionTree : Type 0 where
    pub sections : Sections
    pub sections_dag : SectionsDag

  pub record SectionTreeUpdate : Type 0 where
    pub signed_sap : SignedSap
    pub proof_chain : SectionsDag

  abbrev pub sap_prefix : SignedSap → Prefix
  sap_prefix signed = SectionAuthorityProvider.prefix signed.value

  abbrev pub sap_key : SignedSap → PublicKey
  sap_key signed = section_key signed.value

  unfoldable pub new : SignedSap → Outcome SectionTree
  new genesis_sap =
      if not (sap_prefix genesis_sap =? x.default)
      then err non_genesis_sap
      else ok (record {
        sections = (x.default, genesis_sap) ∷ [];
        sections_dag = Dag.new (sap_key genesis_sap);
      })

  unfoldable pub get_signed : SectionTree → Prefix → Option SignedSap
  get_signed self prefix = Map.get prefix self.sections

  unfoldable pub get_signed_by_key : SectionTree → PublicKey → Option SignedSap
  get_signed_by_key self key = find (λ sap. sap_key sap =? key) (map (λ e. e.1) self.sections)

  unfoldable pub section_keys : SectionTree → List PublicKey
  section_keys self = map (λ e. sap_key e.1) self.sections

  -- `min_by` keeps the first of several least elements.
  unfoldable pub min_by :
      (Prefix → Prefix → Bool) → Prefix × SignedSap → Sections → Prefix × SignedSap
  min_by nearer best [] = best
  min_by nearer best (e ∷ rest) = min_by nearer (if nearer e.0 best.0 then e else best) rest

  abbrev pub is_excluded : Option Prefix → Prefix → Bool
  is_excluded none prefix = false
  is_excluded (some p) prefix = prefix =? p

  unfoldable pub closest : SectionTree → XorName → Option Prefix → Option SignedSap
  unfolding min_by
  closest self name exclude = elim (select (λ e. not (is_excluded exclude e.0)) self.sections) [
    | [] ↦ none
    | e ∷ rest ↦ some (min_by (x.prefix_nearer name) e rest).1
  ]

  -- `max_by_key` keeps the last of several greatest elements.
  unfoldable pub max_by_key : (Prefix → ℕ) → Prefix × SignedSap → Sections → Prefix × SignedSap
  max_by_key weight best [] = best
  max_by_key weight best (e ∷ rest) =
      max_by_key weight (if leb (weight best.0) (weight e.0) then e else best) rest

  unfoldable pub get_signed_by_name : SectionTree → XorName → Outcome SignedSap
  unfolding max_by_key
  get_signed_by_name self name = elim self.sections [
    | [] ↦ err no_matching_section
    | e ∷ rest ↦ ok (max_by_key (λ p. x.common_prefix p name) e rest).1
  ]

  unfoldable pub get_signed_by_prefix : SectionTree → Prefix → Outcome SignedSap
  unfolding get_signed_by_name
  get_signed_by_prefix self prefix = get_signed_by_name self (x.prefix_name prefix)

  unfoldable pub generate_section_tree_update :
      ℕ → SectionTree → Prefix → Option (Outcome SectionTreeUpdate)
  generate_section_tree_update fuel self prefix = elim (Map.get prefix self.sections) [
    | none ↦ some (err no_matching_section)
    | some signed_sap ↦
        elim (partial_dag fuel self.sections_dag (SectionsDag.genesis_key self.sections_dag)
          (sap_key signed_sap)) [
            | none ↦ none
            | some (err e) ↦ some (err e)
            | some (ok proof_chain) ↦
                some (ok (record { signed_sap = signed_sap; proof_chain = proof_chain }))
          ]
  ]

  -- The loop of `prune`: it ends at the empty prefix, so one round more than the bits is enough.
  unfoldable pub prune_loop : ℕ → Sections → Prefix → Sections
  prune_loop zero sections prefix = sections
  prune_loop (suc fuel) sections prefix = elim (x.is_empty prefix) [
    | true ↦ Map.remove prefix sections
    | false ↦ prune_loop fuel (Map.remove prefix sections) (x.popped prefix)
  ]

  unfoldable pub prune : Sections → Prefix → Sections
  unfolding prune_loop
  prune sections prefix = prune_loop (suc (x.bit_count prefix)) sections prefix

  unfoldable pub insert : SectionTree → SignedSap → SectionTree × Bool
  unfolding prune
  insert self sap =
      let prefix = sap_prefix sap in
      if any (λ e. x.is_extension_of e.0 prefix) self.sections
      then (self, false)
      else (let sections = Map.insert prefix sap self.sections in
          if x.is_empty prefix
          then (record self { sections = sections }, true)
          else (record self { sections = prune sections (x.popped prefix) }, true))

  -- The checks of `update_the_section_tree` on the proof chain against what is known.
  unfoldable pub check_chain : SectionTree → SectionTreeUpdate → Outcome (Unit {0})
  check_chain self update = elim (get_signed self (sap_prefix update.signed_sap)) [
    | some sap ↦
        if not (has_key update.proof_chain (sap_key sap))
        then err sap_key_not_covered_by_proof_chain
        else ok tt
    | none ↦
        if not (check_trust update.proof_chain (keys self.sections_dag))
        then err untrusted_proof_chain
        else ok tt
  ]

  -- The checks on the section's own signature and on the end of the chain.
  unfoldable pub check_sap : ⦃c : Bincode⦄ → SectionTreeUpdate → Outcome (Unit {0})
  check_sap update =
      if not (self_verify update.signed_sap)
      then err untrusted_section_auth_provider
      else if not (SectionSigned.public_key update.signed_sap =? sap_key update.signed_sap)
      then err untrusted_section_auth_provider
      else (do
        last ← last_key update.proof_chain
        if not (last =? sap_key update.signed_sap) then err untrusted_proof_chain else ok tt)

  -- The end of the update: the section is inserted before the chain is merged.
  unfoldable pub merge_chain :
      ℕ → SectionsDag → SectionTree → Bool → Option (SectionTree × Outcome Bool)
  merge_chain fuel proof_chain self false = some (self, ok false)
  merge_chain fuel proof_chain self true = elim (merge fuel self.sections_dag proof_chain) [
    | none ↦ none
    | some (dag, result) ↦ some (record self { sections_dag = dag }, result >>= λ _. ok true)
  ]

  unfoldable pub apply_update :
      ℕ → SectionTree → SectionTreeUpdate → Option (SectionTree × Outcome Bool)
  apply_update fuel self update =
      merge_chain fuel update.proof_chain (insert self update.signed_sap).0
        (insert self update.signed_sap).1

  unfoldable pub update_the_section_tree :
      ⦃c : Bincode⦄ → ℕ → SectionTree → SectionTreeUpdate → Option (SectionTree × Outcome Bool)
  update_the_section_tree fuel self update =
      if has_key self.sections_dag (sap_key update.signed_sap)
      then some (self, ok false)
      else elim (check_chain self update) [
        | err e ↦ some (self, err e)
        | ok _ ↦ elim (check_sap update) [
          | err e ↦ some (self, err e)
          | ok _ ↦ apply_update fuel self update
        ]
      ]
