-- ===== src/Tests/MembershipTests.antt =====
-- Runs of the membership checks, and their theorems there.
use safe_network_archive.Membership.Admission.{Admissible, validate_node_state-ok_iff}
use safe_network_archive.Membership.Sizes.{
  supermajority-overlap, contains-partition_by_prefix, section_has_room_for_node-bound,
}
use safe_network_archive.Membership.{
  missing, number, supermajority, elder_count, partition_by_prefix, section_has_room_for_node,
  validate_node_state, recommended_section_size,
}
use safe_network_archive.Prelude.Sets
use safe_network_archive.Prelude.{
  ◌+◌, ◌-◌, ◌*◌, ◌≡◌, ◌≤◌, ◌<◌, ◌↔◌, refl, true, false, [], ◌∷◌, none, some, ok, arith, select,
  nat_ord,
}
use safe_network_archive.Sap.{NodeState, MembershipState}
use safe_network_archive.Tests.Names.{toy_names, toy_triggers}
use safe_network_archive.Tests.Platform.{toy_bls}

supermajority-overlap_run : (7 < 3 * (5 + 6 - 7)) × (0 < 7 → supermajority 7 ≤ 7)
unfolding supermajority
supermajority-overlap_run = supermajority-overlap 7 5 6 (omega arith) (omega arith)

partitioned : partition_by_prefix [] (4 ∷ 7 ∷ 2 ∷ []) ≡ some (2 ∷ 4 ∷ [], 7 ∷ [])
unfolding partition_by_prefix select Sets.from_iter Sets.insert
partitioned = refl

contains-partition_by_prefix_run :
    (Sets.contains ⦃o = nat_ord⦄ 7 (2 ∷ 4 ∷ []) ≡ false)
    × (Sets.contains ⦃o = nat_ord⦄ 7 (7 ∷ []) ≡ true)
unfolding Sets.contains
contains-partition_by_prefix_run =
    contains-partition_by_prefix [] (4 ∷ 7 ∷ 2 ∷ []) (2 ∷ 4 ∷ []) (7 ∷ []) 7 partitioned

has_room : section_has_room_for_node (number 1) 4 [] (7 ∷ 2 ∷ []) ≡ true
unfolding section_has_room_for_node partition_by_prefix select Sets.from_iter Sets.insert
    recommended_section_size elder_count
has_room = refl

section_has_room_for_node-bound_run : 2 ≤ 4 * elder_count (number 1)
section_has_room_for_node-bound_run =
    section_has_room_for_node-bound (number 1) 4 [] (7 ∷ 2 ∷ []) (2 ∷ 4 ∷ [], 7 ∷ []) has_room
      partitioned

abbrev joining : NodeState
joining = record {
  node_id = record { name = 4; addr = 80 };
  state = MembershipState.joined;
  previous_name = none;
}

validate_node_state-ok_iff_example :
    (validate_node_state missing joining (false ∷ []) [] [] ≡ ok tt) ↔ (
      (toy_names.matches (false ∷ []) 4 ≡ true)
      × Admissible missing joining (false ∷ []) [] [] MembershipState.joined)
validate_node_state-ok_iff_example = validate_node_state-ok_iff missing joining (false ∷ []) [] []
