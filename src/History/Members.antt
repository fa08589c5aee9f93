-- ===== src/History/Members.antt =====
-- Who is a member of the section, by the last state that mentions a name.
use safe_network_archive.Extern.{BlsKeys, XorNames, XorName, Triggers, Decisions}
use safe_network_archive.History.{
  SectionMemberHistory, Members, apply_state, apply_states, joined_only, collect_members,
  members_at_gen, members, get, is_member,
}
use safe_network_archive.History.Replay.{
  settled, all_proposed, initially, get-members_at_gen, apply_decisions-proposed,
}
use safe_network_archive.Prelude.Map
use safe_network_archive.Prelude.Sets
use safe_network_archive.Prelude.{
  ℕ, ◌≡◌, refl, sym, ap, ◌∙◌, List, [], ◌∷◌, map, ◌==◌, ltb, any, take, is_some, is_some-find,
  take-length, length, ◌=?◌, ◌<?◌, Ord, arith, Bool-cases, inl, inr, All, subst,
}
use safe_network_archive.Sap.{NodeState, node_state_ord, node_name, is_joined}

module _ ⦃b : BlsKeys⦄ ⦃x : XorNames⦄ ⦃t : Triggers⦄ ⦃d : Decisions NodeState⦄ where
  instance abbrev name_order : Ord x.XorName
  name_order = x.name_ord

  -- Every state stands under its own name.
  abbrev IsKeyed : Members → Type 0
  IsKeyed held = All (λ (e : XorName × NodeState). node_name e.1 ≡ e.0) held

  insert-IsKeyed :
      (s : NodeState) (held : Members) → IsKeyed held → IsKeyed (Map.insert (node_name s) s held)
  unfolding Map.insert
  insert-IsKeyed s [] k = (refl, tt)
  insert-IsKeyed s ((n, u) ∷ held) k = elim (Bool-cases (n =? node_name s)) [
    | inl y ↦ rw (y, Map.insert) (refl, k.1)
    | inr z ↦ elim (Bool-cases (node_name s <? n)) [
      | inl y ↦ rw (z, Map.insert, y) (refl, k)
      | inr w ↦ rw (z, Map.insert, w) (k.0, insert-IsKeyed s held k.1)
    ]
  ]

  remove-IsKeyed : (n : XorName) (held : Members) → IsKeyed held → IsKeyed (Map.remove n held)
  unfolding Map.remove
  remove-IsKeyed n [] k = k
  remove-IsKeyed n ((j, u) ∷ held) k = elim (Bool-cases (j =? n)) [
    | inl y ↦ rw (y, Map.remove) (remove-IsKeyed n held k.1)
    | inr z ↦ rw (z, Map.remove) (k.0, remove-IsKeyed n held k.1)
  ]

  apply_state-IsKeyed :
      (s : NodeState) (held : Members) → IsKeyed held → IsKeyed (apply_state held s)
  unfolding apply_state
  apply_state-IsKeyed s held k = elim (Bool-cases (is_joined s)) [
    | inl y ↦ rw y (insert-IsKeyed s held k)
    | inr z ↦ rw z (remove-IsKeyed (node_name s) held k)
  ]

  apply_states-IsKeyed :
      (held : Members) (states : List NodeState) → IsKeyed held → IsKeyed (apply_states held states)
  unfolding apply_states
  apply_states-IsKeyed held [] k = k
  apply_states-IsKeyed held (s ∷ states) k =
      apply_states-IsKeyed (apply_state held s) states (apply_state-IsKeyed s held k)

  collect_members-IsKeyed :
      (held : Members) (states : List NodeState)
      → IsKeyed held
      → IsKeyed (collect_members held states)
  unfolding collect_members
  collect_members-IsKeyed held [] k = k
  collect_members-IsKeyed held (s ∷ states) k =
      collect_members-IsKeyed (Map.insert (node_name s) s held) states (insert-IsKeyed s held k)

  members_at_gen-IsKeyed :
      (self : SectionMemberHistory) (gen : ℕ) → IsKeyed (members_at_gen self gen)
  unfolding members_at_gen
  members_at_gen-IsKeyed self gen =
      let start = collect_members [] (joined_only self.initial_members) in
      let keyed = collect_members-IsKeyed [] (joined_only self.initial_members) tt in
      let ds = take gen self.decisions in
      elim (Bool-cases (ltb (length self.decisions) gen)) [
        | inl y ↦ rw y tt
        | inr z ↦ elim (Bool-cases (gen == 0)) [
          | inl y ↦ rw (z, y) keyed
          | inr w ↦
              rw (z, w)
                (subst IsKeyed (sym (apply_decisions-proposed start ds))
                  (apply_states-IsKeyed start (all_proposed ds) keyed))
        ]
      ]

  any-IsKeyed :
      (n : XorName) (held : Members)
      → IsKeyed held
      → any (λ s. node_name s =? n) (map (λ e. e.1) held) ≡ is_some (Map.get n held)
  unfolding any Map.get
  any-IsKeyed n [] k = refl
  any-IsKeyed n ((j, s) ∷ held) k =
      ground (arith, any-IsKeyed n held k.1, ap (λ (i : XorName). i =? n) k.0)

  -- A name is a member's exactly when the last state that the decisions mention for it is joined, or
  -- no decision mentions it and a joined initial member has it.
  pub is_member_lem :
      (self : SectionMemberHistory) (n : XorName)
      → is_member self n ≡ is_some (settled n (all_proposed self.decisions) (initially self n))
  unfolding is_member get members
  is_member_lem self n =
      let gen = length self.decisions in
      let held = members_at_gen self gen in
      is_some-find (λ s. node_name s =? n) (Sets.from_iter (map (λ e. e.1) held))
      ∙ Sets.any-from_iter (λ s. node_name s =? n) (map (λ e. e.1) held)
      ∙ any-IsKeyed n held (members_at_gen-IsKeyed self gen)
      ∙ ap is_some (get-members_at_gen self gen n (omega arith))
      ∙ ap (λ ds. is_some (settled n (all_proposed ds) (initially self n)))
          (take-length self.decisions)
