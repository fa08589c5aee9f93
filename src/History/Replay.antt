-- ===== src/History/Replay.antt =====
-- The members of a section, which the code finds by replaying decisions, against a direct reading of
-- them: the last decision on a name counts.
use safe_network_archive.Extern.{BlsKeys, XorNames, XorName, Triggers, Decisions}
use safe_network_archive.History.{
  SectionMemberHistory, Members, proposed, apply_state, apply_states, apply_decisions, joined_only,
  collect_members, members_at_gen,
}
use safe_network_archive.Prelude.Map
use safe_network_archive.Prelude.{
  ℕ, zero, suc, ◌≤◌, ◌≡◌, refl, sym, ap, ◌∙◌, List, [], ◌∷◌, ◌++◌, Option, none, some, take, length,
  if◌then◌else◌, ◌=?◌, Ord, arith,
}
use safe_network_archive.Sap.{NodeState, node_state_ord, node_name, is_joined}

module _ ⦃x : XorNames⦄ ⦃t : Triggers⦄ where
  instance abbrev names : Ord x.XorName
  names = x.name_ord

  -- The last state of a list that has the name.
  abbrev pub last_mention : XorName → List NodeState → Option NodeState
  last_mention name [] = none
  last_mention name (state ∷ states) = elim (last_mention name states) [
    | some later ↦ some later
    | none ↦ if node_name state =? name then some state else none
  ]

  -- A name that is mentioned is a member if its last state is joined; any other keeps what it was.
  abbrev pub settled : XorName → List NodeState → Option NodeState → Option NodeState
  settled name states before = elim (last_mention name states) [
    | some last ↦ if is_joined last then some last else none
    | none ↦ before
  ]

module _ ⦃b : BlsKeys⦄ ⦃x : XorNames⦄ ⦃t : Triggers⦄ ⦃d : Decisions NodeState⦄ where
  instance abbrev name_order : Ord x.XorName
  name_order = x.name_ord

  abbrev pub all_proposed : List d.Decision → List NodeState
  all_proposed [] = []
  all_proposed (decision ∷ rest) = proposed decision ++ all_proposed rest

  get-apply_states :
      (held : Members) (states : List NodeState) (n : XorName)
      → Map.get n (apply_states held states) ≡ settled n states (Map.get n held)
  unfolding apply_states apply_state
  get-apply_states held [] n = refl
  get-apply_states held (s ∷ states) n = ground (
    arith,
    get-apply_states (apply_state held s) states n,
    Map.get-insert (node_name s) n s held,
    Map.get-remove (node_name s) n held,
  )

  apply_states-append :
      (held : Members) (ss us : List NodeState)
      → apply_states held (ss ++ us) ≡ apply_states (apply_states held ss) us
  unfolding apply_states
  apply_states-append held [] us = refl
  apply_states-append held (s ∷ ss) us = apply_states-append (apply_state held s) ss us

  pub apply_decisions-proposed :
      (held : Members) (ds : List d.Decision)
      → apply_decisions held ds ≡ apply_states held (all_proposed ds)
  unfolding apply_decisions apply_states
  apply_decisions-proposed held [] = refl
  apply_decisions-proposed held (e ∷ ds) =
      apply_decisions-proposed (apply_states held (proposed e)) ds
      ∙ sym (apply_states-append held (proposed e) (all_proposed ds))

  -- The last state that mentions a name, or else what was there.
  abbrev pub first_known : XorName → List NodeState → Option NodeState → Option NodeState
  first_known n states before = elim (last_mention n states) [
    | some last ↦ some last
    | none ↦ before
  ]

  get-collect_members :
      (held : Members) (states : List NodeState) (n : XorName)
      → Map.get n (collect_members held states) ≡ first_known n states (Map.get n held)
  unfolding collect_members
  get-collect_members held [] n = refl
  get-collect_members held (s ∷ states) n = ground (
    arith,
    get-collect_members (Map.insert (node_name s) s held) states n,
    Map.get-insert (node_name s) n s held,
  )

  abbrev pub initially : SectionMemberHistory → XorName → Option NodeState
  initially self n = last_mention n (joined_only self.initial_members)

  get-collected :
      (self : SectionMemberHistory) (n : XorName)
      → Map.get n (collect_members [] (joined_only self.initial_members)) ≡ initially self n
  unfolding Map.get
  get-collected self n = ground (arith, get-collect_members [] (joined_only self.initial_members) n)

  -- At a generation that is there, `members_at_gen` holds for every name the last state that the
  -- decisions up to that generation mention, if it is joined; for a name that none of them mentions,
  -- the last of the joined initial members of that name.
  pub get-members_at_gen :
      (self : SectionMemberHistory) (gen : ℕ) (n : XorName)
      → gen ≤ length self.decisions
      → Map.get n (members_at_gen self gen)
        ≡ settled n (all_proposed (take gen self.decisions)) (initially self n)
  unfolding members_at_gen
  get-members_at_gen self zero n h = ground (arith, get-collected self n)
  get-members_at_gen self (suc gen) n h =
      let start = collect_members [] (joined_only self.initial_members) in
      let ds = take (suc gen) self.decisions in
      ground (
        arith,
        ap (Map.get n) (apply_decisions-proposed start ds),
        get-apply_states start (all_proposed ds) n,
        get-collected self n,
      )
