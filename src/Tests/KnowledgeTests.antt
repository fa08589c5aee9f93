-- ===== src/Tests/KnowledgeTests.antt =====
-- Runs of `NetworkKnowledge`, and its theorems there.
use safe_network_archive.Dag
use safe_network_archive.Dag.Walk.{partial_dag, branch_loop, replay, get_ancestors, ancestors_loop}
use safe_network_archive.History
use safe_network_archive.History.{SectionMemberHistory}
use safe_network_archive.Knowledge.{
  NetworkKnowledge, is_adult, is_elder, is_section_member, closest_signed_sap, members,
  update_sap_knowledge_if_valid, adopt_update, switch_own_section, prune_and_switch,
}
use safe_network_archive.Knowledge.Members.{is_adult_lem, has_name-members, has_name}
use safe_network_archive.Knowledge.Update.{
  Switched, IsInStep, update_sap-ok, update_sap-IsInStep, update_sap-lost,
}
use safe_network_archive.Prelude.{◌≡◌, refl, true, not, ◌&&◌, ◌||◌, [], ◌∷◌, none, some, ok}
use safe_network_archive.Tests.HistoryTests.{history_program, toy_decisions, start}
use safe_network_archive.Tests.DagTests.{two}
use safe_network_archive.Tests.Names.{toy_names, toy_triggers}
use safe_network_archive.Tests.Platform.{toy_bls, toy_merkle}
use safe_network_archive.Tests.TreeTests.{
  toy_bincode, tree_program, section, genesis_tree, second_tree, second_update,
}
use safe_network_archive.Tree.{SectionTreeUpdate, update_the_section_tree}

abbrev pub before : NetworkKnowledge
before = record { signed_sap = section [] 1; section_members = start; section_tree = genesis_tree }

unfoldable pub knowledge_program : Unit {0}
unfolding tree_program history_program partial_dag branch_loop replay get_ancestors ancestors_loop
    update_sap_knowledge_if_valid adopt_update switch_own_section prune_and_switch
    History.prune_members_archive Dag.check_trust Dag.keys
knowledge_program = tt

-- The second section takes over the prefix of the first.
abbrev pub after : NetworkKnowledge
after = record {
  signed_sap = section [] 2;
  section_members = record start { initial_members = [] };
  section_tree = second_tree;
}

second_taken : update_sap_knowledge_if_valid 5 before second_update 0 ≡ some (after, ok true)
unfolding knowledge_program
second_taken = refl

update_sap-ok_example :
    (update_the_section_tree 5 genesis_tree second_update ≡ some (second_tree, ok true))
    × Switched before after (section [] 2)
unfolding knowledge_program
update_sap-ok_example = update_sap-ok 5 before after second_update 0 true second_taken

before-IsInStep : IsInStep before 0
unfolding knowledge_program
before-IsInStep = (refl, refl)

update_sap-IsInStep_example : IsInStep after 0
update_sap-IsInStep_example =
    update_sap-IsInStep 5 before after second_update 0 true before-IsInStep (λ e. refl) second_taken

-- The section splits, and the node 0 learns of the other half only.
abbrev sibling_update : SectionTreeUpdate
sibling_update = record { signed_sap = section (true ∷ []) 2; proof_chain = two }

abbrev cut_off : NetworkKnowledge
cut_off = record before {
  section_tree = record { sections = (true ∷ [], section (true ∷ []) 2) ∷ []; sections_dag = two };
}

sibling_taken : update_sap_knowledge_if_valid 5 before sibling_update 0 ≡ some (cut_off, ok true)
unfolding knowledge_program
sibling_taken = refl

update_sap-lost_example :
    (cut_off.signed_sap ≡ before.signed_sap) × (closest_signed_sap cut_off 0 ≡ none)
update_sap-lost_example =
    update_sap-lost 5 before cut_off sibling_update 0 0 refl refl sibling_taken

is_adult_lem_run : is_adult before 1 ≡ (is_section_member before 1 && not (is_elder before 1))
is_adult_lem_run = is_adult_lem before 1

has_name-members_example :
    has_name 2 (members before) ≡ (is_elder before 2 || is_section_member before 2)
has_name-members_example = has_name-members before 2
