-- ===== src/Tests/AntiEntropyTests.antt =====
-- Runs of the anti-entropy, and its theorems there.
use safe_network_archive.AntiEntropy.{
  WireMsg, update, retry, check_for_entropy, handle_anti_entropy_msg,
}
use safe_network_archive.AntiEntropy.Accepted.{HasCaughtUp, check_for_entropy-accepted}
use safe_network_archive.AntiEntropy.Chain.{LeadsHere, section_chain-LeadsHere}
use safe_network_archive.AntiEntropy.Reply.{check_for_entropy-none_iff}
use safe_network_archive.AntiEntropy.Sync.{handle_anti_entropy_msg-catches_up}
use safe_network_archive.Dag.{SectionsDag, has_key, last_key, new}
use safe_network_archive.Dag.Chain.{IsGrown}
use safe_network_archive.Dag.Partial.{partial_dag-Ends, partial_dag-total}
use safe_network_archive.Dag.Walk.{partial_dag}
use safe_network_archive.Errors.{invalid_branch}
use safe_network_archive.History.{SectionMemberHistory}
use safe_network_archive.Knowledge.{
  NetworkKnowledge, section_chain, get_proof_chain_to_current_section,
}
use safe_network_archive.Prelude.{
  ℕ, none, err, ◌≡◌, ◌↔◌, ◌⊎◌, Bool, refl, inl, true, false, [], ◌∷◌, some, ok, arith,
}
use safe_network_archive.Tests.DagTests.{two, three, two-IsGrown, three-IsGrown}
use safe_network_archive.Tests.HistoryTests.{joining, leaving, after_joining, toy_decisions}
use safe_network_archive.Tests.KnowledgeTests.{knowledge_program, after}
use safe_network_archive.Tests.Names.{toy_names, toy_triggers}
use safe_network_archive.Tests.Platform.{node, nil, toy_bls, toy_merkle}
use safe_network_archive.Tests.TreeTests.{toy_bincode, section, genesis_tree, second_update}
use safe_network_archive.Tree.{SectionTree, SectionTreeUpdate, update_the_section_tree}

-- A message to the node 0 with the old key.
abbrev old_message : WireMsg
old_message = record { dst_name = 0; dst_key = 1; serialized = some (7 ∷ []) }

chain_found : get_proof_chain_to_current_section 5 after 1 ≡ some (ok two)
unfolding knowledge_program get_proof_chain_to_current_section
chain_found = refl

check_for_entropy-accepted_example :
    (check_for_entropy 5 true old_message after
      ≡ some (ok (some (record { signed_sap = section [] 2; proof_chain = two }, retry (7 ∷ [])))))
    × (peer_fuel : ℕ) × (tree' : SectionTree) × (update_the_section_tree peer_fuel genesis_tree
          second_update
        ≡ some (tree', ok true))
    × HasCaughtUp genesis_tree after tree'
unfolding knowledge_program
check_for_entropy-accepted_example =
    check_for_entropy-accepted 5 true old_message (7 ∷ []) after genesis_tree two two-IsGrown
      (refl, refl) refl refl refl chain_found (refl, refl, refl, inl (section [] 1, refl, refl))

check_for_entropy-none_iff_run : (check_for_entropy 5 true old_message after ≡ some (ok none)) ↔ (
    ((toy_names.matches [] 0 ≡ true) × (◌≡◌ {A = ℕ} 1 2))
    ⊎ ((toy_names.matches [] 0 ≡ false) × (true ≡ false)))
check_for_entropy-none_iff_run = check_for_entropy-none_iff 5 true old_message after

section_chain-LeadsHere_example :
    (chain : SectionsDag) × (section_chain 5 after ≡ some chain) × LeadsHere after 1 chain
unfolding knowledge_program
section_chain-LeadsHere_example = section_chain-LeadsHere 5 after (two-IsGrown, refl, omega arith)

partial_dag-total_run :
    ((dag' : SectionsDag) × (partial_dag 5 three 2 3 ≡ some (ok dag')))
    ⊎ ((false ≡ false) × (partial_dag 5 three 2 3 ≡ some (err invalid_branch)))
unfolding knowledge_program
partial_dag-total_run = partial_dag-total three 5 2 3 three-IsGrown refl (omega arith)

abbrev below_two : SectionsDag
below_two = record {
  genesis_key = 2;
  dag = node 3 2003 nil ∷ [];
  dag_root = 3 ∷ [];
  hashes = (3, node 3 2003 nil) ∷ [];
}

below_two_found : partial_dag 5 three 2 3 ≡ some (ok below_two)
unfolding knowledge_program
below_two_found = refl

partial_dag-Ends_example :
    IsGrown below_two
    × (below_two.genesis_key ≡ 2)
    × (has_key below_two 3 ≡ true)
    × (last_key below_two ≡ ok 3)
partial_dag-Ends_example = partial_dag-Ends three 5 2 3 below_two three-IsGrown below_two_found

-- A node of the section of the key 7, which made the decisions.
abbrev seventh : NetworkKnowledge
seventh = record {
  signed_sap = section [] 7;
  section_members = after_joining;
  section_tree = record { sections = ([], section [] 7) ∷ []; sections_dag = new 7 };
}

abbrev seventh_update : SectionTreeUpdate
seventh_update = record { signed_sap = section [] 7; proof_chain = new 7 }

handle_anti_entropy_msg-catches_up_example :
    (self' : NetworkKnowledge) × (updated : Bool) × (handle_anti_entropy_msg 5 seventh 0
        seventh_update
        (update (joining ∷ leaving ∷ []))
      ≡ some (self', ok (false, updated)))
    × (SectionMemberHistory.decisions self'.section_members ≡ joining ∷ leaving ∷ [])
unfolding knowledge_program
handle_anti_entropy_msg-catches_up_example =
    handle_anti_entropy_msg-catches_up 5 seventh 0 seventh_update (leaving ∷ []) refl refl
      (refl, refl, (refl, refl, tt)) (refl, tt)
