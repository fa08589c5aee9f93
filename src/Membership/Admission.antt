-- ===== src/Membership/Admission.antt =====
-- Which node states `validate_node_state` accepts.
use safe_network_archive.Extern.{BlsKeys, XorNames, XorName, Prefix, Triggers, names_ord}
use safe_network_archive.Membership.{
  EnvVar, Members, node_addr, has_addr, validate_node_state, section_has_room_for_node,
}
use safe_network_archive.Prelude.Map
use safe_network_archive.Prelude.Sets
use safe_network_archive.Prelude.{
  ◌≡◌, refl, ◌↔◌, true, false, List, map, ok, arith, Bool-cases, inl, inr,
}
use safe_network_archive.Sap.{NodeState, MembershipState, node_name}

module _ ⦃b : BlsKeys⦄ ⦃x : XorNames⦄ ⦃t : Triggers⦄ where
  -- What is asked of each state, apart from the prefix.
  abbrev pub Admissible :
      EnvVar → NodeState → Prefix → Members → List XorName → MembershipState → Type 0
  Admissible env self prefix members archived MembershipState.joined =
      (Map.contains_key (node_name self) members ≡ false)
      × (section_has_room_for_node env (node_name self) prefix (map (λ e. e.0) members) ≡ true)
      × (has_addr (node_addr self) members ≡ false)
      × (Sets.contains (node_name self) archived ≡ false)
  Admissible env self prefix members archived MembershipState.left =
      Map.contains_key (node_name self) members ≡ true
  Admissible env self prefix members archived (MembershipState.relocated trigger) = Unit {0}

  accepted_state :
      (env : EnvVar) (self : NodeState) (prefix : Prefix) (members : Members)
      (archived : List XorName) (state : MembershipState)
      → self.state ≡ state
      → x.matches prefix (node_name self) ≡ true
      → (validate_node_state env self prefix members archived ≡ ok tt)
        ↔ Admissible env self prefix members archived state
  unfolding validate_node_state
  accepted_state env self prefix members archived MembershipState.joined e m =
      rw (m, e) (λ h. ground arith, λ h. ground arith)
  accepted_state env self prefix members archived MembershipState.left e m =
      rw (m, e) (λ h. ground arith, λ h. ground arith)
  accepted_state env self prefix members archived (MembershipState.relocated u) e m =
      rw (m, e) (λ h. tt, λ h. refl)

  -- `validate_node_state` accepts a state exactly when the name matches the prefix and: a joining
  -- node has a name that is neither a member's nor archived, room in its half of the section and an
  -- address that no member has; a leaving node is a member; a relocated node always.
  pub validate_node_state-ok_iff :
      (env : EnvVar) (self : NodeState) (prefix : Prefix) (members : Members)
      (archived : List XorName)
      → (validate_node_state env self prefix members archived ≡ ok tt) ↔ (
          (x.matches prefix (node_name self) ≡ true)
          × Admissible env self prefix members archived self.state)
  unfolding validate_node_state
  validate_node_state-ok_iff env self prefix members archived =
      elim (Bool-cases (x.matches prefix (node_name self))) [
        | inr z ↦ (λ h. absurd (ground arith), λ h. absurd (ground arith))
        | inl y ↦
            let accepted = accepted_state env self prefix members archived self.state refl y in
            (λ h. (y, accepted.0 h), λ h. accepted.1 h.1)
      ]
