-- ===== src/Tests/RelocationTests.antt =====
-- Churn events, and the theorems of the relocation there.
use safe_network_archive.Extern.{NameContents}
use safe_network_archive.Knowledge.{
  NetworkKnowledge, section_members, is_adult, live_adults, adults, is_elder,
}
use safe_network_archive.Membership.{number, elder_count, recommended_section_size}
use safe_network_archive.Prelude.{
  ℕ, ◌≡◌, ◌≤◌, ◌↔◌, ◌/◌, ◌*◌, ◌^◌, ◌%◌, refl, true, false, nat_ord, [], ◌∷◌, In, length, inl, arith,
}
use safe_network_archive.Prelude.Sets
use safe_network_archive.Relocation.{
  relocation_check, trailing_zeros, count_zeros, is_candidate, place_nearest, sort_nearest,
  take_oldest, candidates, allowed_relocations, find_nodes_to_relocate,
}
use safe_network_archive.Relocation.Check.{relocation_check-divides}
use safe_network_archive.Relocation.Chosen.{
  find_nodes_to_relocate-bound, find_nodes_to_relocate-oldest,
}
use safe_network_archive.Bytes.{from_be_bytes}
use safe_network_archive.Sap.{NodeState, joined, contains_elder, node_age}
use safe_network_archive.Tests.HistoryTests.{toy_decisions, start, state_of}
use safe_network_archive.Tests.KnowledgeTests.{before, knowledge_program}
use safe_network_archive.Tests.Names.{toy_names, toy_triggers}
use safe_network_archive.Tests.Platform.{toy_bls, toy_merkle}

-- A name has two bytes, and its hash is the second.
instance abbrev toy_contents : NameContents
toy_contents = record {
  octets = λ name. (name / 256) % 256 ∷ name % 256 ∷ [];
  from_content = λ octets. from_be_bytes octets;
}

relocation_program : Unit {0}
unfolding knowledge_program relocation_check trailing_zeros count_zeros is_candidate place_nearest
    sort_nearest take_oldest candidates allowed_relocations find_nodes_to_relocate elder_count
    recommended_section_size is_adult live_adults adults is_elder contains_elder
relocation_program = tt

twelve_zeros : trailing_zeros (48 ∷ 0 ∷ []) ≡ 12
unfolding relocation_program
twelve_zeros = refl

relocation_check-divides_example :
    (relocation_check 9 12288 ≡ true) ↔ ((q : ℕ) × (12288 ≡ q * 2 ^ 9))
relocation_check-divides_example =
    relocation_check-divides 9 12288 (omega arith, (omega arith, tt)) (omega arith)

abbrev five : NetworkKnowledge
five = record before {
  section_members = record start {
    initial_members =
        state_of 1 joined
        ∷ state_of 2 joined
        ∷ state_of 3 joined
        ∷ state_of 4 joined
        ∷ state_of 5 joined
        ∷ [];
  };
}

-- Of five members with two elders one is relocated, the oldest that is not excluded.
four_goes : find_nodes_to_relocate (number 2) five 12288 (5 ∷ []) ≡ state_of 4 joined ∷ []
unfolding relocation_program
four_goes = refl

find_nodes_to_relocate-oldest_example :
    In (state_of 4 joined) (section_members five)
    × (is_adult five 4 ≡ true)
    × (relocation_check 4 12288 ≡ true)
    × (Sets.contains {A = ℕ} ⦃o = nat_ord⦄ 4 (5 ∷ []) ≡ false)
    × ((other : NodeState)
        → In other (section_members five)
        → is_candidate five 12288 (5 ∷ []) other ≡ true
        → node_age other ≤ 4)
unfolding relocation_program
find_nodes_to_relocate-oldest_example =
    find_nodes_to_relocate-oldest (number 2) five 12288 (5 ∷ []) (state_of 4 joined) (inl refl)

find_nodes_to_relocate-bound_run :
    (length (find_nodes_to_relocate (number 2) five 12288 []) ≤ 1)
    × (length (find_nodes_to_relocate (number 2) five 12288 []) ≤ 1)
unfolding relocation_program
find_nodes_to_relocate-bound_run = find_nodes_to_relocate-bound (number 2) five 12288 []
