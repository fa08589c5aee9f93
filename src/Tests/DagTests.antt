-- ===== src/Tests/DagTests.antt =====
-- Runs of `SectionsDAG` on the concrete platform, and its theorems at a chain of three keys.
use safe_network_archive.Dag.{
  SectionsDag, new, verify_sig, has_key, get_parent_key, verify_and_insert, last_key, parent_node,
}
use safe_network_archive.Dag.Ancestors.{get_ancestors-Lineage, self_verify-IsGrown}
use safe_network_archive.Dag.Chain.{IsGrown, Lineage, new-IsGrown}
use safe_network_archive.Dag.Cycle.{insert_below_itself-loops}
use safe_network_archive.Dag.Insert.{
  verify_and_insert-IsGrown, verify_and_insert-parent, verify_and_insert-ok_iff,
  has_key-verify_and_insert,
}
use safe_network_archive.Dag.Walk.{get_ancestors, self_verify}
use safe_network_archive.Errors.{invalid_signature, key_not_found}
use safe_network_archive.Extern.Merkle.{lookup_all}
use safe_network_archive.Prelude.{
  none, ℕ, ◌≡◌, refl, true, ◌||◌, ◌↔◌, List, [], ◌∷◌, some, ok, err, ◌=?◌, arith, nat_ord,
}
use safe_network_archive.Prelude.Map
use safe_network_archive.Prelude.Sets
use safe_network_archive.Tests.Platform.{
  ToyNode, node, cons, nil, toy_bls, toy_merkle, ToyNode-discrete,
}

unfoldable pub dag_program : Unit {0}
unfolding new verify_and_insert has_key get_parent_key last_key get_ancestors parent_node lookup_all
    Map.get Map.insert Map.contains_key Sets.insert ToyNode-discrete
dag_program = tt

abbrev pub one : SectionsDag
one = record { genesis_key = 1; dag = []; dag_root = []; hashes = [] }

abbrev two_node : ToyNode
two_node = node 2 1002 nil

abbrev pub two : SectionsDag
two = record {
  genesis_key = 1;
  dag = two_node ∷ [];
  dag_root = 2 ∷ [];
  hashes = (2, two_node) ∷ [];
}

abbrev three_node : ToyNode
three_node = node 3 2003 (cons two_node nil)

abbrev pub three : SectionsDag
three = record {
  genesis_key = 1;
  dag = three_node ∷ two_node ∷ [];
  dag_root = 2 ∷ [];
  hashes = (2, two_node) ∷ (3, three_node) ∷ [];
}

insert_two : verify_and_insert one 1 2 1002 ≡ ok two
unfolding dag_program
insert_two = refl

insert_three : verify_and_insert two 2 3 2003 ≡ ok three
unfolding dag_program
insert_three = refl

-- A signature by another key is refused, and so is a parent that is not there.
insert_unsigned : verify_and_insert two 2 3 1003 ≡ err invalid_signature
unfolding dag_program
insert_unsigned = refl

insert_orphan : verify_and_insert two 5 3 5003 ≡ err (key_not_found 5)
unfolding dag_program
insert_orphan = refl

pub two-IsGrown : IsGrown two
unfolding new dag_program
two-IsGrown = verify_and_insert-IsGrown one 1 2 1002 two (new-IsGrown 1) refl insert_two

pub three-IsGrown : IsGrown three
unfolding dag_program
three-IsGrown = verify_and_insert-IsGrown two 2 3 2003 three two-IsGrown refl insert_three

verify_and_insert-IsGrown_example : IsGrown three
unfolding dag_program
verify_and_insert-IsGrown_example =
    verify_and_insert-IsGrown two 2 3 2003 three two-IsGrown refl insert_three

verify_and_insert-ok_iff_run :
    ((d : SectionsDag) × (verify_and_insert two 2 3 2003 ≡ ok d))
    ↔ ((verify_sig 2 3 2003 ≡ true) × (has_key two 2 ≡ true))
verify_and_insert-ok_iff_run = verify_and_insert-ok_iff two 2 3 2003

parent_of_three : get_parent_key three 3 ≡ ok (some 2)
unfolding dag_program
parent_of_three = verify_and_insert-parent two 2 3 2003 three two-IsGrown refl insert_three

keys_of_three : has_key three 4 ≡ (◌=?◌ {A = ℕ} 3 4 || has_key two 4)
keys_of_three = has_key-verify_and_insert two 2 3 2003 three 4 insert_three

get_ancestors-Lineage_example :
    (line : List ℕ) × Lineage three 3 line × (get_ancestors 3 three 3 ≡ some (ok line))
unfolding dag_program
get_ancestors-Lineage_example = get_ancestors-Lineage three 3 3 three-IsGrown refl (omega arith)

three_ancestors : get_ancestors 3 three 3 ≡ some (ok (2 ∷ 1 ∷ []))
unfolding dag_program
three_ancestors = refl

self_verify-IsGrown_example : self_verify 3 three ≡ some true
self_verify-IsGrown_example = self_verify-IsGrown three 3 three-IsGrown (omega arith)

abbrev loop_node : ToyNode
loop_node = node 2 2002 (cons two_node nil)

-- The second key once more, signed by itself.
abbrev looped : SectionsDag
looped = record {
  genesis_key = 1;
  dag = loop_node ∷ two_node ∷ [];
  dag_root = 2 ∷ [];
  hashes = (2, loop_node) ∷ [];
}

insert_itself : verify_and_insert two 2 2 2002 ≡ ok looped
unfolding dag_program
insert_itself = refl

insert_below_itself-loops_example : get_ancestors 9 looped 2 ≡ none
insert_below_itself-loops_example =
    insert_below_itself-loops two looped 2 2002 9 two-IsGrown (λ e. absurd (omega (arith, e)))
      insert_itself
