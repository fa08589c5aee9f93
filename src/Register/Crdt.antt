-- ===== src/Register/Crdt.antt =====
-- The entries of a register: sn_interface/src/types/register/reg_crdt.rs, whose field `data` is
-- `merkle` here.
use safe_network_archive.Extern.{UserKeys, UserSignature, XorNames, MerkleReg}
use safe_network_archive.Prelude.{
  ℕ, ◌+◌, not, List, map, Option, none, some, ok, err, if◌then◌else◌,
}
use safe_network_archive.Register.Policy.{
  Entry, User, RegisterAddress, same_address, RegisterResult, crdt_wrong_address,
}

module _ ⦃u : UserKeys⦄ ⦃x : XorNames⦄ ⦃r : MerkleReg Entry⦄ where
  pub record CrdtOperation : Type 0 where
    pub address : RegisterAddress
    pub crdt_op : r.Node
    pub source : User
    pub signature : Option UserSignature

  pub record RegisterCrdt : Type 0 where
    pub address : RegisterAddress
    pub merkle : r.Reg

  abbrev pub new : RegisterAddress → RegisterCrdt
  new address = record { address = address; merkle = r.new }

  abbrev pub size : RegisterCrdt → ℕ
  size self = r.num_nodes self.merkle + r.num_orphans self.merkle

  unfoldable pub write :
      RegisterCrdt → Entry → List r.Hash → User → RegisterCrdt × (r.Hash × CrdtOperation)
  write self entry children source =
      let crdt_op = r.write self.merkle entry children in
      (
        record self { merkle = r.apply crdt_op self.merkle },
        (
          r.hash crdt_op,
          record { address = self.address; crdt_op = crdt_op; source = source; signature = none },
        ),
      )

  unfoldable pub apply_op : RegisterCrdt → CrdtOperation → RegisterResult RegisterCrdt
  apply_op self op =
      if not (same_address self.address op.address)
      then err (crdt_wrong_address op.address)
      else ok (record self { merkle = r.apply op.crdt_op self.merkle })

  unfoldable pub get : RegisterCrdt → r.Hash → Option Entry
  get self hash = elim (r.node self.merkle hash) [ none ↦ none | some node ↦ some (r.value node) ]

  -- The set of the last entries, as a list.
  unfoldable pub read : RegisterCrdt → List (r.Hash × Entry)
  read self = map (λ node. (r.hash node, r.value node)) (r.read self.merkle)
