-- ===== src/Tests/RegisterTests.antt =====
-- Runs of a register, and its theorems there.
use safe_network_archive.Extern.{UserKeys, SelfEncryption}
use safe_network_archive.Prelude.{
  ℕ, ◌≡◌, ◌≤◌, ◌↔◌, ◌⊎◌, refl, true, false, [], ◌∷◌, none, some, ok, err, nat_ord,
}
use safe_network_archive.Prelude.Map
use safe_network_archive.Register.Access.{setting, is_action_allowed-ok_iff}
use safe_network_archive.Register.Crdt
use safe_network_archive.Register.Crdt.{CrdtOperation, RegisterCrdt}
use safe_network_archive.Register.Data.{
  Register, new, size, get, write, apply_op, check_entry_and_reg_sizes,
}
use safe_network_archive.Register.Entries.{get-write}
use safe_network_archive.Register.Limits.{made, written, Reachable-size}
use safe_network_archive.Register.Policy.{
  Action, User, Policy, is_action_allowed, is_action_allowed_by_user, is_allowed, access_denied,
  entry_too_big,
}
use safe_network_archive.Tests.Names.{toy_names}
use safe_network_archive.Tests.Platform.{ToyNode, toy_entries, ToyNode-discrete}

instance abbrev toy_keys : UserKeys
toy_keys = record { UserKey = ℕ; UserSignature = ℕ; user_key_ord = nat_ord }

-- Entries of at most two bytes.
instance abbrev toy_encryption : SelfEncryption
toy_encryption = record { min_encryptable_bytes = 6 }

abbrev owner : User
owner = User.key 1

-- All may write but the user 2.
abbrev open_policy : Policy
open_policy = record {
  owner = owner;
  permissions =
      (User.anyone, record { write = some true })
      ∷ (User.key 2, record { write = some false })
      ∷ [];
}

register_program : Unit {0}
unfolding new get write apply_op check_entry_and_reg_sizes Crdt.write Crdt.apply_op Crdt.get
    is_action_allowed is_action_allowed_by_user is_allowed Map.get ToyNode-discrete
register_program = tt

third_may_write : is_action_allowed open_policy (User.key 3) Action.write ≡ ok tt
unfolding register_program
third_may_write = refl

second_may_not :
    is_action_allowed open_policy (User.key 2) Action.write ≡ err (access_denied (User.key 2))
unfolding register_program
second_may_not = refl

is_action_allowed-ok_iff_run :
    (is_action_allowed open_policy (User.key 2) Action.read ≡ ok tt)
    × ((is_action_allowed open_policy (User.key 2) Action.write ≡ ok tt) ↔ (
        (User.key 2 ≡ owner)
        ⊎ ((setting open_policy (User.key 2) ≡ some true)
            ⊎ ((setting open_policy (User.key 2) ≡ none)
                × (setting open_policy User.anyone ≡ some true)))))
is_action_allowed-ok_iff_run = is_action_allowed-ok_iff open_policy (User.key 2)

abbrev empty : Register
empty = new owner 5 0 open_policy

abbrev first_node : ToyNode
first_node = toy_entries.write [] (8 ∷ 9 ∷ []) []

abbrev first_op : CrdtOperation
first_op = record {
  address = record { name = 5; tag = 0 };
  crdt_op = first_node;
  source = owner;
  signature = none;
}

abbrev first : Register
first = record {
  authority = owner;
  crdt = record { address = record { name = 5; tag = 0 }; merkle = first_node ∷ [] };
  policy = open_policy;
}

first_written : write empty (8 ∷ 9 ∷ []) [] ≡ ok (first, (first_node, first_op))
unfolding register_program
first_written = refl

too_big : write empty (7 ∷ 8 ∷ 9 ∷ []) [] ≡ err (entry_too_big 3 2)
unfolding register_program
too_big = refl

-- A replica of the same address, for another user.
abbrev replica : Register
replica = new (User.key 4) 5 0 open_policy

abbrev replica_after : Register
replica_after = record replica {
  crdt = record { address = record { name = 5; tag = 0 }; merkle = first_node ∷ [] };
}

first_applied : apply_op replica first_op ≡ ok replica_after
unfolding register_program
first_applied = refl

get-write_example :
    (get first first_node ≡ ok (8 ∷ 9 ∷ [])) × (get replica_after first_node ≡ ok (8 ∷ 9 ∷ []))
get-write_example =
    get-write empty first replica replica_after (8 ∷ 9 ∷ []) [] first_node first_op
      (λ h i. absurd i) first_written (λ h i. absurd i) first_applied

Reachable-size_example : size first ≤ 1024
Reachable-size_example = Reachable-size first (
    written empty first (8 ∷ 9 ∷ []) [] first_node first_op (made owner 5 0 open_policy)
      first_written)
