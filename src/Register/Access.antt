-- ===== src/Register/Access.antt =====
-- Who a register lets write.
use safe_network_archive.Extern.{UserKeys, XorNames, MerkleReg}
use safe_network_archive.Prelude.{◌≡◌, refl, Bool, true, Option, none, some, ok}
use safe_network_archive.Register.Policy.{
  Entry, Action, User, user_ord, Policy, is_action_allowed_by_user, is_action_allowed,
}
use safe_network_archive.Prelude.{◌↔◌, ◌⊎◌, arith}

module _ ⦃u : UserKeys⦄ ⦃x : XorNames⦄ ⦃r : MerkleReg Entry⦄ where
  -- What the policy says of a user's writing.
  abbrev pub setting : Policy → User → Option Bool
  setting self user = is_action_allowed_by_user self user Action.write

  -- Reading is always allowed. Writing is allowed exactly to the owner, to a user whose own setting
  -- allows it, and, where the user has no setting, to all if the one for anyone allows it: a setting
  -- of the user's own that denies it goes before that for anyone.
  pub is_action_allowed-ok_iff :
      (self : Policy) (requester : User)
      → (is_action_allowed self requester Action.read ≡ ok tt)
        × ((is_action_allowed self requester Action.write ≡ ok tt) ↔ (
            (requester ≡ self.owner)
            ⊎ ((setting self requester ≡ some true)
                ⊎ ((setting self requester ≡ none) × (setting self User.anyone ≡ some true)))))
  unfolding is_action_allowed
  is_action_allowed-ok_iff self requester = (
    refl,
    (
      λ h. ground (arith, user_ord.beq_iff requester self.owner),
      λ h. ground (arith, user_ord.beq_iff requester self.owner),
    ),
  )
