-- ===== src/Relocation.antt =====
-- Which members are relocated at a churn event: sn_node/src/node/relocation.rs, with
-- `relocation_check` of sn_interface/src/network_knowledge/mod.rs.
pub mod Check
pub mod Chosen
use safe_network_archive.Dag.{SectionInfo}
use safe_network_archive.Extern.{
  BlsKeys, XorNames, XorName, Triggers, MerkleReg, Decisions, NameContents, names_ord,
}
use safe_network_archive.Knowledge.{NetworkKnowledge, section_members, is_adult}
use safe_network_archive.Membership.{EnvVar, elder_count, recommended_section_size}
use safe_network_archive.Prelude.Sets
use safe_network_archive.Prelude.{
  ℕ, zero, suc, ◌+◌, ◌-◌, ◌/◌, ◌%◌, Bool, true, false, not, ◌&&◌, List, [], ◌∷◌, Option, none, some,
  ltb, leb, ◌==◌, select, take, length, if◌then◌else◌,
}
use safe_network_archive.Sap.{NodeState, node_name, node_age}

-- `trailing_zeros` of a number of `w` bits, of the standard library.
abbrev pub bit_zeros : ℕ → ℕ → ℕ
bit_zeros zero n = 0
bit_zeros (suc w) n = if n % 2 == 0 then suc (bit_zeros w (n / 2)) else 0

abbrev pub reverse_onto : List ℕ → List ℕ → List ℕ
reverse_onto [] done = done
reverse_onto (byte ∷ rest) done = reverse_onto rest (byte ∷ done)

-- The loop of `trailing_zeros` over the bytes, the last one first.
unfoldable pub count_zeros : List ℕ → ℕ
count_zeros [] = 0
count_zeros (byte ∷ rest) = if byte == 0 then 8 + count_zeros rest else bit_zeros 8 byte

unfoldable pub trailing_zeros : List ℕ → ℕ
unfolding count_zeros
trailing_zeros octets = count_zeros (reverse_onto octets [])

-- The greatest of the ages.
abbrev pub max_age : {A : Type 0} → (A → ℕ) → List A → Option ℕ
max_age age [] = none
max_age age (info ∷ rest) = elim (max_age age rest) [
  | none ↦ some (age info)
  | some oldest ↦ some (if ltb oldest (age info) then age info else oldest)
]

abbrev pub min : ℕ → ℕ → ℕ
min a c = if leb a c then a else c

module _ ⦃x : XorNames⦄ ⦃n : NameContents⦄ where
  unfoldable pub relocation_check : ℕ → XorName → Bool
  unfolding trailing_zeros
  relocation_check age churn_id = leb age (trailing_zeros (n.octets churn_id))

module _ ⦃x : XorNames⦄ ⦃t : Triggers⦄ where
  -- Nearest to the target first; the sort is stable.
  unfoldable pub place_nearest : XorName → NodeState → List NodeState → List NodeState
  place_nearest target_name state [] = state ∷ []
  place_nearest target_name state (next ∷ rest) =
      let placed = place_nearest target_name state rest in
      if x.nearer target_name (node_name next) (node_name state)
      then next ∷ placed
      else state ∷ next ∷ rest

  unfoldable pub sort_nearest : XorName → List NodeState → List NodeState
  unfolding place_nearest
  sort_nearest target_name [] = []
  sort_nearest target_name (state ∷ rest) =
      place_nearest target_name state (sort_nearest target_name rest)

  -- The oldest of the candidates, as many as are allowed.
  unfoldable pub take_oldest : ℕ → List NodeState → List NodeState
  take_oldest allowed_relocations candidates = elim (max_age node_age candidates) [
    | none ↦ []
    | some oldest ↦ take allowed_relocations (select (λ state. node_age state == oldest) candidates)
  ]

  module _ ⦃b : BlsKeys⦄ ⦃m : MerkleReg SectionInfo⦄ ⦃n : NameContents⦄
      ⦃d : Decisions NodeState⦄ where
    unfoldable pub is_candidate : NetworkKnowledge → XorName → List XorName → NodeState → Bool
    unfolding relocation_check
    is_candidate network_knowledge churn_id excluded state =
        is_adult network_knowledge (node_name state)
        && (relocation_check (node_age state) churn_id
            && not (Sets.contains (node_name state) excluded))

    -- Those that may be relocated, the nearest to the churn id first.
    unfoldable pub candidates : NetworkKnowledge → XorName → List XorName → List NodeState
    unfolding is_candidate sort_nearest
    candidates network_knowledge churn_id excluded =
        sort_nearest (n.from_content (n.octets churn_id)) (
          select (is_candidate network_knowledge churn_id excluded)
            (section_members network_knowledge))

    unfoldable pub allowed_relocations : EnvVar → ℕ → ℕ
    allowed_relocations env section_size =
        min (section_size - recommended_section_size env) (elder_count env / 2)

    unfoldable pub find_nodes_to_relocate :
        EnvVar → NetworkKnowledge → XorName → List XorName → List NodeState
    unfolding candidates take_oldest allowed_relocations
    find_nodes_to_relocate env network_knowledge churn_id excluded =
        let section_size = length (section_members network_knowledge) in
        if leb section_size (recommended_section_size env)
        then []
        else take_oldest (allowed_relocations env section_size)
            (candidates network_knowledge churn_id excluded)
