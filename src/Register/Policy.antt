-- ===== src/Register/Policy.antt =====
-- Who may do what to a register: sn_interface/src/types/register/policy.rs and metadata.rs, with the
-- errors of a register.
use safe_network_archive.Extern.{UserKeys, UserKey, XorNames, XorName, MerkleReg}
use safe_network_archive.Prelude.Map
use safe_network_archive.Prelude.Orders.{option_ord, ord_by}
use safe_network_archive.Prelude.{
  ℕ, ◌≡◌, refl, Bool, true, false, ◌&&◌, ◌||◌, List, Option, none, some, Result, ok, err, ◌==◌,
  ◌=?◌, Ord, if◌then◌else◌,
}

abbrev pub Entry : Type 0
Entry = List ℕ

pub data Action : Type 0 where
  read write : Action

-- `Some(false)` denies the permission, `None` leaves it to the setting for anyone.
pub record Permissions : Type 0 where
  pub write : Option Bool

unfoldable pub is_allowed : Permissions → Action → Option Bool
is_allowed self Action.read = some true
is_allowed self Action.write = self.write

module _ ⦃u : UserKeys⦄ where
  pub data User : Type 0 where
    anyone : User
    key : UserKey → User

  -- `derive(Ord)` of `User`.
  abbrev pub user_rank : User → Option UserKey
  user_rank User.anyone = none
  user_rank (User.key k) = some k

  pub user_rank-injective : (v w : User) → user_rank v ≡ user_rank w → v ≡ w
  user_rank-injective User.anyone User.anyone e = refl
  user_rank-injective User.anyone (User.key k) e = cc
  user_rank-injective (User.key j) User.anyone e = cc
  user_rank-injective (User.key j) (User.key k) e = cc

  instance abbrev pub user_ord : Ord User
  user_ord = ord_by user_rank user_rank-injective (option_ord u.user_key_ord)

  pub record Policy : Type 0 where
    pub owner : User
    pub permissions : List (User × Permissions)

  unfoldable pub is_action_allowed_by_user : Policy → User → Action → Option Bool
  is_action_allowed_by_user self user action = elim (Map.get user self.permissions) [
    | none ↦ none
    | some perms ↦ is_allowed perms action
  ]

  abbrev pub or_else : Option Bool → Option Bool → Option Bool
  or_else none other = other
  or_else (some a) other = some a

  abbrev pub is_read : Action → Bool
  is_read Action.read = true
  is_read Action.write = false

  unfoldable pub policy_permissions : Policy → User → Option Permissions
  policy_permissions self user =
      if user =? self.owner
      then some (record { write = some true })
      else Map.get user self.permissions

module _ ⦃u : UserKeys⦄ ⦃x : XorNames⦄ ⦃r : MerkleReg Entry⦄ where
  instance abbrev name_order : Ord x.XorName
  name_order = x.name_ord

  pub record RegisterAddress : Type 0 where
    pub name : XorName
    pub tag : ℕ

  abbrev pub same_address : RegisterAddress → RegisterAddress → Bool
  same_address a c =
      RegisterAddress.name a =? RegisterAddress.name c
      && RegisterAddress.tag a == RegisterAddress.tag c

  -- The errors of sn_interface/src/types/errors.rs that a register returns.
  pub data RegisterError : Type 0 where
    access_denied no_such_user : User → RegisterError
    entry_too_big : ℕ → ℕ → RegisterError
    too_many_entries : ℕ → RegisterError
    no_such_entry : r.Hash → RegisterError
    crdt_wrong_address : RegisterAddress → RegisterError

  abbrev pub RegisterResult : Type 0 → Type 0
  RegisterResult = Result RegisterError

  unfoldable pub is_action_allowed : Policy → User → Action → RegisterResult (Unit {0})
  unfolding is_action_allowed_by_user
  is_action_allowed self requester action =
      if is_read action || requester =? self.owner
      then ok tt
      else elim (or_else (is_action_allowed_by_user self requester action)
          (is_action_allowed_by_user self User.anyone action)) [
            | some true ↦ ok tt
            | some false ↦ err (access_denied requester)
            | none ↦ err (access_denied requester)
          ]
