-- ===== src/Register/Data.antt =====
-- A register with its limits and its policy: sn_interface/src/types/register/mod.rs.
use safe_network_archive.Extern.{UserKeys, XorNames, XorName, MerkleReg, SelfEncryption}
use safe_network_archive.Prelude.{
  ℕ, ◌/◌, List, [], Option, none, some, ok, err, ◌>>=◌, ok_or, ltb, leb, length, if◌then◌else◌,
}
use safe_network_archive.Register.Crdt
use safe_network_archive.Register.Crdt.{RegisterCrdt, CrdtOperation}
use safe_network_archive.Register.Policy.{
  Entry, Action, User, user_ord, Policy, Permissions, policy_permissions, RegisterAddress,
  RegisterResult, is_action_allowed, entry_too_big, too_many_entries, no_such_entry, no_such_user,
}

abbrev pub max_reg_entry_size : ⦃e : SelfEncryption⦄ → ℕ
max_reg_entry_size ⦃e⦄ = e.min_encryptable_bytes / 3

abbrev pub max_reg_num_entries : ℕ
max_reg_num_entries = 1024

module _ ⦃u : UserKeys⦄ ⦃x : XorNames⦄ ⦃r : MerkleReg Entry⦄ where
  pub record Register : Type 0 where
    pub authority : User
    pub crdt : RegisterCrdt
    pub policy : Policy

  unfoldable pub new : User → XorName → ℕ → Policy → Register
  new authority name tag policy = record {
    authority = authority;
    crdt = Crdt.new (record { name = name; tag = tag });
    policy = policy;
  }

  unfoldable pub new_owned : User → XorName → ℕ → Register
  unfolding new
  new_owned authority name tag =
      new authority name tag (record { owner = authority; permissions = [] })

  abbrev pub address : Register → RegisterAddress
  address self = RegisterCrdt.address self.crdt

  abbrev pub owner : Register → User
  owner self = Policy.owner self.policy

  abbrev pub size : Register → ℕ
  size self = Crdt.size self.crdt

  unfoldable pub get : Register → r.Hash → RegisterResult Entry
  get self hash = ok_or (Crdt.get self.crdt hash) (no_such_entry hash)

  abbrev pub read : Register → List (r.Hash × Entry)
  read self = Crdt.read self.crdt

  unfoldable pub permissions : Register → User → RegisterResult Permissions
  permissions self user = ok_or (policy_permissions self.policy user) (no_such_user user)

  unfoldable pub check_entry_and_reg_sizes :
      ⦃e : SelfEncryption⦄ → Register → Entry → RegisterResult (Unit {0})
  check_entry_and_reg_sizes self entry =
      if ltb max_reg_entry_size (length entry)
      then err (entry_too_big (length entry) max_reg_entry_size)
      else if leb max_reg_num_entries (size self)
      then err (too_many_entries (size self))
      else ok tt

  -- An error comes before any change.
  unfoldable pub write :
      ⦃e : SelfEncryption⦄
      → Register
      → Entry
      → List r.Hash
      → RegisterResult (Register × (r.Hash × CrdtOperation))
  unfolding check_entry_and_reg_sizes
  write self entry children = check_entry_and_reg_sizes self entry >>= λ _.
      (let (crdt, written) = Crdt.write self.crdt entry children self.authority in
        ok (record self { crdt = crdt }, written))

  unfoldable pub apply_op :
      ⦃e : SelfEncryption⦄ → Register → CrdtOperation → RegisterResult Register
  unfolding check_entry_and_reg_sizes
  apply_op self op = check_entry_and_reg_sizes self (r.value op.crdt_op) >>= λ _.
      (Crdt.apply_op self.crdt op >>= λ crdt. ok (record self { crdt = crdt }))

  unfoldable pub check_permissions : Register → Action → Option User → RegisterResult (Unit {0})
  check_permissions self action requester =
      is_action_allowed self.policy (elim requester [ none ↦ self.authority | some user ↦ user ])
        action
