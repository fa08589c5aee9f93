-- ===== src/Membership.antt =====
-- Who may be a member of a section: the section sizes of sn_interface/src/network_knowledge/mod.rs
-- and `NodeState::validate_node_state` of network_knowledge/node_state/mod.rs.
pub mod Admission
pub mod Sizes
use safe_network_archive.Errors.{
  Outcome, wrong_section, existing_member_name_conflict, try_join_later,
  existing_member_socket_addr_conflict, archived_node_rejoined, not_a_member,
}
use safe_network_archive.Extern.{BlsKeys, XorNames, XorName, Prefix, Triggers, names_ord}
use safe_network_archive.Prelude.Map
use safe_network_archive.Prelude.Sets
use safe_network_archive.Prelude.{
  ℕ, ◌+◌, ◌*◌, ◌/◌, ◌%◌, Bool, true, false, not, List, [], ◌∷◌, map, Option, none, some, ok, err,
  ltb, ◌==◌, find, is_some, select, length, if◌then◌else◌,
}
use safe_network_archive.Sap.{NodeId, NodeState, MembershipState, node_name, SocketAddr}

abbrev pub default_elder_count : ℕ
default_elder_count = 7

-- The environment variable: missing, not a number, or a number.
pub data EnvVar : Type 0 where
  missing unreadable : EnvVar
  number : ℕ → EnvVar

unfoldable pub elder_count : EnvVar → ℕ
elder_count (number count) = count
elder_count unreadable = default_elder_count
elder_count missing = default_elder_count

unfoldable pub recommended_section_size : EnvVar → ℕ
recommended_section_size env = 2 * elder_count env

unfoldable pub threshold : ℕ → ℕ
threshold group_size = group_size * 2 / 3

unfoldable pub supermajority : ℕ → ℕ
unfolding threshold
supermajority group_size = threshold group_size + 1

module _ ⦃x : XorNames⦄ where
  -- The names of the prefix whose next bit is zero, and those whose next bit is one. The index of
  -- that bit must fit in a byte.
  unfoldable pub partition_by_prefix : Prefix → List XorName → Option (List XorName × List XorName)
  partition_by_prefix prefix nodes =
      let decision_index = x.bit_count prefix in
      let matching = select (λ name. x.matches prefix name) nodes in
      if ltb decision_index 256
      then some (
        Sets.from_iter (select (λ name. not (x.bit name decision_index)) matching),
        Sets.from_iter (select (λ name. x.bit name decision_index) matching),
      )
      else none

  unfoldable pub section_has_room_for_node : EnvVar → XorName → Prefix → List XorName → Bool
  section_has_room_for_node env joining_node prefix members =
      let split_section_size_cap = recommended_section_size env * 2 in
      elim (partition_by_prefix prefix members) [
        | none ↦ false
        | some (zeros, ones) ↦
            if x.bit joining_node (x.bit_count prefix % 256)
            then ltb (length ones) split_section_size_cap
            else ltb (length zeros) split_section_size_cap
      ]

module _ ⦃b : BlsKeys⦄ ⦃x : XorNames⦄ ⦃t : Triggers⦄ where
  -- `BTreeMap<XorName, NodeState>`.
  abbrev pub Members : Type 0
  Members = List (XorName × NodeState)

  abbrev pub node_addr : NodeState → SocketAddr
  node_addr n = NodeId.addr n.node_id

  abbrev pub has_addr : SocketAddr → Members → Bool
  has_addr addr members = is_some (find (λ n. node_addr n == addr) (map (λ e. e.1) members))

  unfoldable pub validate_node_state :
      EnvVar → NodeState → Prefix → Members → List XorName → Outcome (Unit {0})
  validate_node_state env self prefix current_joined_members archived =
      let name = node_name self in
      if not (x.matches prefix name) then err wrong_section else elim self.state [
        | MembershipState.joined ↦
            if Map.contains_key name current_joined_members
            then err existing_member_name_conflict
            else if not
                (section_has_room_for_node env name prefix (map (λ e. e.0) current_joined_members))
            then err try_join_later
            else if has_addr (node_addr self) current_joined_members
            then err existing_member_socket_addr_conflict
            else if Sets.contains name archived
            then err archived_node_rejoined
            else ok tt
        | MembershipState.relocated trigger ↦ ok tt
        | MembershipState.left ↦
            if not (Map.contains_key name current_joined_members) then err not_a_member else ok tt
      ]
