-- ===== src/Register/Entries.antt =====
-- An entry is found where it was written.
use safe_network_archive.Extern.{UserKeys, XorNames, MerkleReg, SelfEncryption}
use safe_network_archive.Prelude.{◌≡◌, List, none, ok}
use safe_network_archive.Register.Crdt
use safe_network_archive.Register.Crdt.{RegisterCrdt, CrdtOperation}
use safe_network_archive.Register.Data.{Register, get, write, apply_op}
use safe_network_archive.Register.Policy.{Entry, same_address}
use safe_network_archive.Prelude.{inl, inr, Bool-cases}
use safe_network_archive.Register.Limits.{checked}
use safe_network_archive.Extern.Merkle.{Known}
use safe_network_archive.Prelude.{ap, sym, ◌∙◌}

module _ ⦃u : UserKeys⦄ ⦃x : XorNames⦄ ⦃r : MerkleReg Entry⦄ ⦃e : SelfEncryption⦄ where
  -- A register that applied a node whose children it knows has the node's value under its hash.
  get-apply :
      (self : Register) (node : r.Node)
      → Known (r.node (RegisterCrdt.merkle self.crdt)) (r.children_of node)
      → get
          (record self {
            crdt = record self.crdt { merkle = r.apply node (RegisterCrdt.merkle self.crdt) };
          })
          (r.hash node)
        ≡ ok (r.value node)
  unfolding get Crdt.get
  get-apply self node known =
      rw (get, Crdt.get, r.node-apply_self (RegisterCrdt.merkle self.crdt) node known)

  -- The register with one more node, and the operation that a write returns for it.
  abbrev with_node : Register → r.Node → Register
  with_node self node = record self {
    crdt = record self.crdt { merkle = r.apply node (RegisterCrdt.merkle self.crdt) };
  }

  abbrev made_op : Register → r.Node → CrdtOperation
  made_op self node = record {
    address = RegisterCrdt.address self.crdt;
    crdt_op = node;
    source = self.authority;
    signature = none;
  }

  write-node :
      (self self' : Register) (entry : Entry) (children : List r.Hash) (hash : r.Hash)
      (op : CrdtOperation)
      → write self entry children ≡ ok (self', (hash, op))
      → (node : r.Node) × (r.value node ≡ entry)
        × (r.children_of node ≡ children)
        × (with_node self node ≡ self')
        × (r.hash node ≡ hash)
        × (made_op self node ≡ op)
  unfolding write Crdt.write
  write-node self self' entry children hash op h = elim (checked self entry) [
    | inr (error, e) ↦ absurd (cc (rw (write, e) at h))
    | inl e ↦
        let merkle = RegisterCrdt.merkle self.crdt in
        let done = rw (write, e) at h in
        (
          r.write merkle entry children,
          r.value-write merkle entry children,
          r.children_of-write merkle entry children,
          cc done,
          cc done,
          cc done,
        )
  ]

  apply_op-node :
      (self self' : Register) (op : CrdtOperation)
      → apply_op self op ≡ ok self'
      → with_node self op.crdt_op ≡ self'
  unfolding apply_op Crdt.apply_op
  apply_op-node self self' op h = elim (checked self (r.value op.crdt_op)) [
    | inr (error, e) ↦ absurd (cc (rw (apply_op, e) at h))
    | inl e ↦ elim (Bool-cases (same_address (RegisterCrdt.address self.crdt) op.address)) [
      | inr z ↦ absurd (cc (rw (apply_op, e, z) at h))
      | inl y ↦ cc (rw (apply_op, e, y) at h)
    ]
  ]

  -- After a successful write of an entry on children that the register has, `get` returns the entry
  -- for the hash that `write` returned; and so it does in another replica that has the children, once
  -- that applied the operation that `write` returned.
  pub get-write :
      (self self' other other' : Register) (entry : Entry) (children : List r.Hash) (hash : r.Hash)
      (op : CrdtOperation)
      → Known (r.node (RegisterCrdt.merkle self.crdt)) children
      → write self entry children ≡ ok (self', (hash, op))
      → Known (r.node (RegisterCrdt.merkle other.crdt)) children
      → apply_op other op ≡ ok other'
      → (get self' hash ≡ ok entry) × (get other' hash ≡ ok entry)
  get-write self self' other other' entry children hash op known h known' k =
      let (node, v, c, same, at_hash, sent) = write-node self self' entry children hash op h in
      let found =
        λ (s s' : Register) (k : Known (r.node (RegisterCrdt.merkle s.crdt)) children)
            (e : with_node s node ≡ s').
          ap (λ z. get z hash) (sym e)
          ∙ ap (get (with_node s node)) (sym at_hash)
          ∙ get-apply s node (rw c k)
          ∙ ap ok v in
      (
        found self self' known same,
        found other other' known' (
            ap (λ o. with_node other (CrdtOperation.crdt_op o)) sent
            ∙ apply_op-node other other' op k),
      )
