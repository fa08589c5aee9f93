-- ===== src/Tests/HistoryTests.antt =====
-- Runs of `SectionMemberHistory`, and its theorems there.
use safe_network_archive.Errors.{ae_outdated}
use safe_network_archive.Extern.{Decisions}
use safe_network_archive.History.{
  SectionMemberHistory, members_at_gen, members, is_member, get, rejoins_initial, update,
  update_peer, update_peers, reset_initial_members, apply_states, apply_state, apply_decisions,
  collect_members, archive_departed, retain,
}
use safe_network_archive.History.Members.{is_member_lem}
use safe_network_archive.History.Replay.{settled, all_proposed, initially, get-members_at_gen}
use safe_network_archive.History.Sync.{
  IsNumbered, recorded, update_iff, is_member-update, update_peers-IsNumbered,
  update_peers-catches_up,
}
use safe_network_archive.Prelude.Map
use safe_network_archive.Prelude.Sets
use safe_network_archive.Prelude.{
  ℕ, ◌+◌, ◌≡◌, ◌<◌, ◌↔◌, refl, true, false, [], ◌∷◌, List, none, ok, err, ◌==◌, is_some, take,
  length, any, find, arith,
}
use safe_network_archive.Sap.{NodeState, MembershipState}
use safe_network_archive.Tests.Names.{toy_names, toy_triggers}
use safe_network_archive.Tests.Platform.{toy_bls}

-- A decision that the key of its last field made.
pub record ToyDecision : Type 0 where
  pub generation : ℕ
  pub states : List (NodeState × ℕ)
  pub voted_by : ℕ

instance abbrev pub toy_decisions : Decisions NodeState
toy_decisions = record {
  Decision = ToyDecision;
  generation = ToyDecision.generation;
  proposals = ToyDecision.states;
  validate = λ key decision. ToyDecision.voted_by decision == key;
}

abbrev pub state_of : ℕ → MembershipState → NodeState
state_of name state = record {
  node_id = record { name = name; addr = name };
  state = state;
  previous_name = none;
}

-- The node 3 joins, then the initial member 1 leaves.
abbrev pub joining : ToyDecision
joining = record {
  generation = 1;
  states = (state_of 3 MembershipState.joined, 0) ∷ [];
  voted_by = 7;
}

abbrev pub leaving : ToyDecision
leaving = record {
  generation = 2;
  states = (state_of 1 MembershipState.left, 0) ∷ [];
  voted_by = 7;
}

abbrev pub start : SectionMemberHistory
start = record {
  initial_members = state_of 1 MembershipState.joined ∷ state_of 2 MembershipState.joined ∷ [];
  decisions = [];
  archive = [];
}

abbrev pub after_joining : SectionMemberHistory
after_joining = record start { decisions = joining ∷ [] }

abbrev after_leaving : SectionMemberHistory
after_leaving = record start { decisions = joining ∷ leaving ∷ []; archive = (1, leaving) ∷ [] }

unfoldable pub history_program : Unit {0}
unfolding members_at_gen members is_member get rejoins_initial update update_peer update_peers
    reset_initial_members apply_states apply_state apply_decisions collect_members archive_departed
    retain Map.get Map.insert Map.remove Sets.contains Sets.insert Sets.from_iter any find
history_program = tt

joins : update start 7 joining ≡ ok (after_joining, true)
unfolding history_program
joins = refl

left_out : update start 7 leaving ≡ err ae_outdated
unfolding history_program
left_out = refl

caught_up : update_peers start 7 (leaving ∷ joining ∷ leaving ∷ []) ≡ (after_leaving, true)
unfolding history_program
caught_up = refl

get-members_at_gen_example :
    Map.get ⦃o = toy_names.name_ord⦄ 3 (members_at_gen after_leaving 1)
    ≡ settled 3 (all_proposed (take 1 after_leaving.decisions)) (initially after_leaving 3)
get-members_at_gen_example = get-members_at_gen after_leaving 1 3 (omega arith)

is_member_lem_example :
    is_member after_leaving 1
    ≡ is_some (settled 1 (all_proposed after_leaving.decisions) (initially after_leaving 1))
is_member_lem_example = is_member_lem after_leaving 1

update_iff_run :
    ((update start 7 joining ≡ ok (after_joining, true)) ↔ (
      (rejoins_initial start joining ≡ false)
      × (1 ≡ length start.decisions + 1)
      × (toy_decisions.validate 7 joining ≡ true)
      × (after_joining ≡ recorded start joining)))
    × ((update start 7 joining ≡ err ae_outdated)
        ↔ ((rejoins_initial start joining ≡ false) × (length start.decisions + 1 < 1)))
    × (update start 7 joining ≡ ok (after_joining, false) → after_joining ≡ start)
update_iff_run = update_iff start after_joining 7 joining

is_member-update_example : is_member after_joining 3 ≡ true
unfolding history_program
is_member-update_example = is_member-update start after_joining 7 joining true joins 3

update_peers-IsNumbered_run :
    IsNumbered 7 0
      (SectionMemberHistory.decisions (update_peers after_joining 7 (leaving ∷ joining ∷ [])).0)
update_peers-IsNumbered_run =
    update_peers-IsNumbered after_joining 7 (leaving ∷ joining ∷ []) (refl, refl, tt)

update_peers-catches_up_example :
    SectionMemberHistory.decisions (update_peers after_joining 7 (joining ∷ leaving ∷ [])).0
    ≡ joining ∷ leaving ∷ []
unfolding history_program
update_peers-catches_up_example =
    update_peers-catches_up after_joining 7 (leaving ∷ []) (refl, refl, (refl, refl, tt)) (refl, tt)
