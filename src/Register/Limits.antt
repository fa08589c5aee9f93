-- ===== src/Register/Limits.antt =====
-- The limits of a register hold after every change.
use safe_network_archive.Extern.{UserKeys, XorNames, XorName, MerkleReg, SelfEncryption}
use safe_network_archive.Prelude.{ℕ, ◌≡◌, refl, List, ok, err, length}
use safe_network_archive.Register.Crdt
use safe_network_archive.Register.Crdt.{RegisterCrdt, CrdtOperation}
use safe_network_archive.Register.Data.{
  Register, new, size, max_reg_entry_size, max_reg_num_entries, check_entry_and_reg_sizes, write,
  apply_op,
}
use safe_network_archive.Register.Policy.{
  Entry, User, Policy, RegisterError, RegisterResult, same_address,
}
use safe_network_archive.Prelude.{◌↔◌, ◌≤◌, ◌<◌, ◌⊎◌, inl, inr, arith, subst, Bool-cases}

module _ ⦃u : UserKeys⦄ ⦃x : XorNames⦄ ⦃r : MerkleReg Entry⦄ ⦃e : SelfEncryption⦄ where
  check_entry_and_reg_sizes-ok_iff :
      (self : Register) (entry : Entry)
      → (check_entry_and_reg_sizes self entry ≡ ok tt)
        ↔ ((length entry ≤ max_reg_entry_size) × (size self < max_reg_num_entries))
  unfolding check_entry_and_reg_sizes
  check_entry_and_reg_sizes-ok_iff self entry = (λ h. ground arith, λ h. ground arith)

  -- The registers that `new`, writes and applied operations lead to, in any order.
  pub data Reachable : Register → Type 0 where
    made :
        (authority : User) (name : XorName) (tag : ℕ) (policy : Policy)
        → Reachable (new authority name tag policy)
    written :
        (self self' : Register) (entry : Entry) (children : List r.Hash) (hash : r.Hash)
        (op : CrdtOperation)
        → Reachable self
        → write self entry children ≡ ok (self', (hash, op))
        → Reachable self'
    applied :
        (self self' : Register) (op : CrdtOperation)
        → Reachable self
        → apply_op self op ≡ ok self'
        → Reachable self'

  pub checked :
      (self : Register) (entry : Entry)
      → (check_entry_and_reg_sizes self entry ≡ ok tt)
        ⊎ ((error : RegisterError) × (check_entry_and_reg_sizes self entry ≡ err error))
  checked self entry = of_result (check_entry_and_reg_sizes self entry) refl
    where
      of_result :
          (o : RegisterResult (Unit {0}))
          → check_entry_and_reg_sizes self entry ≡ o
          → (check_entry_and_reg_sizes self entry ≡ ok tt)
            ⊎ ((error : RegisterError) × (check_entry_and_reg_sizes self entry ≡ err error))
      of_result (ok tt) e = inl e
      of_result (err error) e = inr (error, e)

  -- A write succeeds exactly when the entry is no larger than the limit and there is room for it; the
  -- register then holds at most one entry more.
  pub write-ok :
      (self : Register) (entry : Entry) (children : List r.Hash)
      → length entry ≤ max_reg_entry_size
      → size self < max_reg_num_entries
      → (self' : Register) × (hash : r.Hash) × (op : CrdtOperation) × (write self entry children
          ≡ ok (self', (hash, op)))
  unfolding write
  write-ok self entry children small room =
      let passed = (check_entry_and_reg_sizes-ok_iff self entry).1 (small, room) in
      let done = Crdt.write self.crdt entry children self.authority in
      (record self { crdt = done.0 }, done.1.0, done.1.1, rw (write, passed))

  write-size :
      (self self' : Register) (entry : Entry) (children : List r.Hash) (hash : r.Hash)
      (op : CrdtOperation)
      → write self entry children ≡ ok (self', (hash, op))
      → size self' ≤ max_reg_num_entries
  unfolding write Crdt.write
  write-size self self' entry children hash op h = elim (checked self entry) [
    | inr (error, e) ↦ absurd (cc (rw (write, e) at h))
    | inl e ↦
        let room = ((check_entry_and_reg_sizes-ok_iff self entry).0 e).1 in
        let node = r.write (RegisterCrdt.merkle self.crdt) entry children in
        let same : record self {
          crdt = record self.crdt { merkle = r.apply node (RegisterCrdt.merkle self.crdt) };
        }
            ≡ self' =
          cc (rw (write, e) at h) in
        subst (λ s. size s ≤ max_reg_num_entries) same
          (omega (arith, r.num_nodes-apply node (RegisterCrdt.merkle self.crdt)))
  ]

  apply_op-size :
      (self self' : Register) (op : CrdtOperation)
      → apply_op self op ≡ ok self'
      → size self' ≤ max_reg_num_entries
  unfolding apply_op Crdt.apply_op
  apply_op-size self self' op h = elim (checked self (r.value op.crdt_op)) [
    | inr (error, e) ↦ absurd (cc (rw (apply_op, e) at h))
    | inl e ↦
        let room = ((check_entry_and_reg_sizes-ok_iff self (r.value op.crdt_op)).0 e).1 in
        elim (Bool-cases (same_address (RegisterCrdt.address self.crdt) op.address)) [
          | inr z ↦ absurd (cc (rw (apply_op, e, z) at h))
          | inl y ↦
              let same : record self {
                crdt = record self.crdt {
                  merkle = r.apply op.crdt_op (RegisterCrdt.merkle self.crdt);
                };
              }
                  ≡ self' =
                cc (rw (apply_op, e, y) at h) in
              subst (λ s. size s ≤ max_reg_num_entries) same
                (omega (arith, r.num_nodes-apply op.crdt_op (RegisterCrdt.merkle self.crdt)))
        ]
  ]

  -- However a register came about by `new`, writes and applied operations, in any order, it holds no
  -- more than 1024 entries.
  pub Reachable-size : (self : Register) → Reachable self → size self ≤ max_reg_num_entries
  unfolding new
  Reachable-size self (made authority name tag policy) = omega (arith, r.num_nodes-new)
  Reachable-size self (written before _ entry children hash op reached h) =
      write-size before self entry children hash op h
  Reachable-size self (applied before _ op reached h) = apply_op-size before self op h
