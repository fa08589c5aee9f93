-- ===== src/Tests/TreeTests.antt =====
-- Runs of `SectionTree` on the concrete platform, and its theorems there.
use safe_network_archive.Dag.{SectionsDag, has_key, last_key, get_node, insert_node, child_nodes}
use safe_network_archive.Dag.Walk.{self_verify as dag_verify, merge}
use safe_network_archive.Errors.{key_not_found}
use safe_network_archive.Prelude.{
  ℕ, ◌+◌, ◌*◌, ◌≡◌, refl, true, false, [], ◌∷◌, none, some, ok, err, select, any,
}
use safe_network_archive.Prelude.Map
use safe_network_archive.Prelude.Sets
use safe_network_archive.Sap.{SectionSigned, SignedSap, Bincode, self_verify}
use safe_network_archive.Tests.DagTests.{dag_program, one, two}
use safe_network_archive.Tests.Names.{ToyPrefix, toy_names, toy_triggers}
use safe_network_archive.Tests.Platform.{ToyNode, node, cons, nil, toy_bls, toy_merkle}
use safe_network_archive.Tree.Insert.{
  IsDisjoint, insert-dropped, insert-get, insert-IsDisjoint, new-IsDisjoint,
}
use safe_network_archive.Tree.Update.{update-accepted, update-IsDisjoint, update-half_done}
use safe_network_archive.Tree
use safe_network_archive.Tree.{
  SectionTree, SectionTreeUpdate, insert, get_signed, check_chain, check_sap,
  update_the_section_tree, sap_key, sap_prefix, apply_update, merge_chain, prune, prune_loop,
}

instance abbrev pub toy_bincode : Bincode
toy_bincode = record {
  serialize_sap = λ sap. some (sap.public_key_set ∷ []);
  serialize_node_state = λ n. some [];
}

-- The section of a prefix with a key, signed by that key.
abbrev pub section : ToyPrefix → ℕ → SignedSap
section p key = record {
  value = record {
    prefix = p;
    public_key_set = key;
    elders = [];
    members = [];
    membership_gen = 0;
  };
  public_key = key;
  signature = key * 1000 + key;
}

abbrev pub genesis_tree : SectionTree
genesis_tree = record { sections = ([], section [] 1) ∷ []; sections_dag = one }

abbrev pub second_update : SectionTreeUpdate
second_update = record { signed_sap = section [] 2; proof_chain = two }

abbrev pub second_tree : SectionTree
second_tree = record { sections = ([], section [] 2) ∷ []; sections_dag = two }

unfoldable pub tree_program : Unit {0}
unfolding dag_program update_the_section_tree check_chain get_signed check_sap self_verify select
    Sets.from_iter apply_update merge_chain insert any merge get_node Sets.contains insert_node
    child_nodes dag_verify prune prune_loop Map.remove
tree_program = tt

second_accepted : update_the_section_tree 5 genesis_tree second_update ≡ some (second_tree, ok true)
unfolding tree_program
second_accepted = refl

update-accepted_example :
    (has_key one 2 ≡ false)
    × (check_chain genesis_tree second_update ≡ ok tt)
    × (self_verify (section [] 2) ≡ true)
    × (SectionSigned.public_key (section [] 2) ≡ sap_key (section [] 2))
    × (last_key two ≡ ok 2)
    × ((insert genesis_tree (section [] 2)).1 ≡ true)
    × (second_tree.sections ≡ SectionTree.sections (insert genesis_tree (section [] 2)).0)
update-accepted_example = update-accepted 5 genesis_tree second_tree second_update second_accepted

genesis_new : Tree.new (section [] 1) ≡ ok genesis_tree
unfolding tree_program Tree.new
genesis_new = refl

genesis-IsDisjoint : IsDisjoint genesis_tree.sections
unfolding tree_program
genesis-IsDisjoint = new-IsDisjoint (section [] 1) genesis_tree genesis_new

update-IsDisjoint_example : IsDisjoint second_tree.sections
update-IsDisjoint_example =
    update-IsDisjoint 5 genesis_tree second_tree second_update (ok true) genesis-IsDisjoint
      second_accepted

inserted-IsDisjoint : IsDisjoint (SectionTree.sections (insert genesis_tree (section [] 2)).0)
inserted-IsDisjoint = insert-IsDisjoint genesis_tree (section [] 2) genesis-IsDisjoint

-- The chain has another genesis key, and holds the known section's key and the new one.
abbrev foreign_two : ToyNode
foreign_two = node 2 9002 nil

abbrev foreign_three : ToyNode
foreign_three = node 3 2003 (cons foreign_two nil)

abbrev foreign_chain : SectionsDag
foreign_chain = record {
  genesis_key = 9;
  dag = foreign_three ∷ foreign_two ∷ [];
  dag_root = 2 ∷ [];
  hashes = (2, foreign_two) ∷ (3, foreign_three) ∷ [];
}

abbrev foreign_update : SectionTreeUpdate
foreign_update = record { signed_sap = section [] 3; proof_chain = foreign_chain }

update-half_done_example :
    (self' : SectionTree) × (update_the_section_tree 5 second_tree foreign_update
      ≡ some (self', err (key_not_found 1)))
    × (get_signed self' [] ≡ some (section [] 3))
    × (has_key self'.sections_dag 3 ≡ false)
unfolding tree_program
update-half_done_example =
    update-half_done 5 second_tree foreign_update refl refl refl refl refl refl refl

-- The section of the prefix `1` is known: the one of the empty prefix is not entered.
abbrev split_tree : SectionTree
split_tree = record {
  sections = (true ∷ [], section (true ∷ []) 3) ∷ ([], section [] 1) ∷ [];
  sections_dag = one;
}

insert-dropped_example : insert split_tree (section [] 2) ≡ (split_tree, false)
unfolding tree_program
insert-dropped_example = insert-dropped split_tree (section [] 2) refl

-- The section of the prefix `11` removes the one of the empty prefix.
insert-get_example :
    ((insert genesis_tree (section (true ∷ true ∷ []) 2)).1 ≡ true)
    × (SectionTree.sections_dag (insert genesis_tree (section (true ∷ true ∷ []) 2)).0 ≡ one)
    × (get_signed (insert genesis_tree (section (true ∷ true ∷ []) 2)).0 [] ≡ none)
unfolding tree_program
insert-get_example = insert-get genesis_tree (section (true ∷ true ∷ []) 2) [] refl
