-- ===== src/Relocation/Chosen.antt =====
-- Who is chosen by `find_nodes_to_relocate`.
use safe_network_archive.Dag.{SectionInfo}
use safe_network_archive.Extern.{
  BlsKeys, XorNames, XorName, Triggers, MerkleReg, Decisions, NameContents, names_ord,
}
use safe_network_archive.Knowledge.{NetworkKnowledge, section_members, is_adult}
use safe_network_archive.Membership.{EnvVar, elder_count, recommended_section_size}
use safe_network_archive.Prelude.Sets
use safe_network_archive.Prelude.{
  ℕ, ◌-◌, ◌/◌, ◌≤◌, ◌≡◌, ap, ◌↔◌, true, false, List, [], ◌∷◌, none, some, leb, ◌==◌, select, length,
  In, In-take, In-select, select-In, length-take-le, Bool-cases, Option-cases, inl, inr, arith,
  ==_iff,
}
use safe_network_archive.Relocation.{
  max_age, relocation_check, place_nearest, sort_nearest, take_oldest, is_candidate, candidates,
  allowed_relocations, find_nodes_to_relocate,
}
use safe_network_archive.Sap.{NodeState, node_name, node_age}

max_age-none :
    {A : Type 0} (age : A → ℕ) (infos : List A) (info : A)
    → max_age age infos ≡ none
    → ¬ In info infos
max_age-none age [] info h m = m
max_age-none age (first ∷ rest) info h m = elim (Option-cases (max_age age rest)) [
  | inl e ↦ absurd (cc (rw e at h))
  | inr (found, e) ↦ absurd (cc (rw e at h))
]

max_age-le :
    {A : Type 0} (age : A → ℕ) (infos : List A) (oldest : ℕ) (info : A)
    → max_age age infos ≡ some oldest
    → In info infos
    → age info ≤ oldest
max_age-le age [] oldest info h m = absurd m
max_age-le age (first ∷ rest) oldest info h m = elim (Option-cases (max_age age rest)) [
  | inl e ↦ elim m [
    | inl same ↦ ground (arith, rw e at h, ap age same)
    | inr r ↦ absurd (max_age-none age rest info e r)
  ]
  | inr (found, e) ↦ elim m [
    | inl same ↦ ground (arith, rw e at h, ap age same)
    | inr r ↦ ground (arith, rw e at h, max_age-le age rest found info e r)
  ]
]

module _ ⦃x : XorNames⦄ ⦃t : Triggers⦄ where
  In-place_nearest :
      (target_name : XorName) (state a : NodeState) (sorted : List NodeState)
      → In a (place_nearest target_name state sorted)
      → In a (state ∷ sorted)
  unfolding place_nearest
  In-place_nearest target_name state a [] m = m
  In-place_nearest target_name state a (next ∷ rest) m =
      let ih = In-place_nearest target_name state a rest in
      elim (Bool-cases (x.nearer target_name (node_name next) (node_name state))) [
        | inl y ↦ elim (rw (y, place_nearest) at m) [
          | inl e ↦ inr (inl e)
          | inr r ↦ elim (ih r) [ inl e ↦ inl e | inr k ↦ inr (inr k) ]
        ]
        | inr z ↦ rw (z, place_nearest) at m
      ]

  place_nearest-In :
      (target_name : XorName) (state a : NodeState) (sorted : List NodeState)
      → In a (state ∷ sorted)
      → In a (place_nearest target_name state sorted)
  unfolding place_nearest
  place_nearest-In target_name state a [] m = m
  place_nearest-In target_name state a (next ∷ rest) m =
      let ih = place_nearest-In target_name state a rest in
      elim (Bool-cases (x.nearer target_name (node_name next) (node_name state))) [
        | inl y ↦
            rw (y, place_nearest)
              (elim m [
                | inl e ↦ inr (ih (inl e))
                | inr r ↦ elim r [ inl e ↦ inl e | inr k ↦ inr (ih (inr k)) ]
              ])
        | inr z ↦ rw (z, place_nearest) m
      ]

  In-sort_nearest :
      (target_name : XorName) (a : NodeState) (states : List NodeState)
      → In a (sort_nearest target_name states) ↔ In a states
  unfolding sort_nearest
  In-sort_nearest target_name a [] = (λ m. m, λ m. m)
  In-sort_nearest target_name a (state ∷ rest) =
      let (to, from) = In-sort_nearest target_name a rest in
      let sorted = sort_nearest target_name rest in
      (
        λ m. elim (In-place_nearest target_name state a sorted m) [
          | inl e ↦ inl e
          | inr r ↦ inr (to r)
        ],
        λ m.
            place_nearest-In target_name state a sorted
              (elim m [ inl e ↦ inl e | inr r ↦ inr (from r) ]),
      )

  take_oldest-oldest :
      (allowed : ℕ) (states : List NodeState) (state : NodeState)
      → In state (take_oldest allowed states)
      → In state states × ((other : NodeState) → In other states → node_age other ≤ node_age state)
  unfolding take_oldest
  take_oldest-oldest allowed states state m = elim (Option-cases (max_age node_age states)) [
    | inl e ↦ absurd (rw (e, take_oldest) at m)
    | inr (oldest, e) ↦
        let (kept, same) =
          In-select (λ s. node_age s == oldest) state states
            (In-take state allowed (select (λ s. node_age s == oldest) states)
              (rw (e, take_oldest) at m)) in
        (
          kept,
          λ other k. omega (
            arith,
            max_age-le node_age states oldest other e k,
            (==_iff (node_age state) oldest).0 same,
          ),
        )
  ]

  length-take_oldest :
      (allowed : ℕ) (states : List NodeState) → length (take_oldest allowed states) ≤ allowed
  unfolding take_oldest
  length-take_oldest allowed states = elim (Option-cases (max_age node_age states)) [
    | inl e ↦ rw (e, take_oldest) (omega arith)
    | inr (oldest, e) ↦
        rw (e, take_oldest) (length-take-le allowed (select (λ s. node_age s == oldest) states))
  ]

  module _ ⦃b : BlsKeys⦄ ⦃m : MerkleReg SectionInfo⦄ ⦃n : NameContents⦄
      ⦃d : Decisions NodeState⦄ where
    candidates_iff :
        (self : NetworkKnowledge) (churn_id : XorName) (excluded : List XorName) (state : NodeState)
        → In state (candidates self churn_id excluded)
          ↔ (In state (section_members self) × (is_candidate self churn_id excluded state ≡ true))
    unfolding candidates
    candidates_iff self churn_id excluded state =
        let chosen = is_candidate self churn_id excluded in
        let (to, from) =
          In-sort_nearest (n.from_content (n.octets churn_id)) state
            (select chosen (section_members self)) in
        (
          λ k. In-select chosen state (section_members self) (to k),
          λ (k, c). from (select-In chosen state (section_members self) k c),
        )

    -- No more nodes are relocated than the section has over its recommended size, nor than half of
    -- the elders.
    pub find_nodes_to_relocate-bound :
        (env : EnvVar) (self : NetworkKnowledge) (churn_id : XorName) (excluded : List XorName)
        → (length (find_nodes_to_relocate env self churn_id excluded)
            ≤ length (section_members self) - recommended_section_size env)
          × (length (find_nodes_to_relocate env self churn_id excluded) ≤ elder_count env / 2)
    unfolding find_nodes_to_relocate allowed_relocations
    find_nodes_to_relocate-bound env self churn_id excluded =
        let found = candidates self churn_id excluded in
        let size = length (section_members self) in
        let short = length-take_oldest (allowed_relocations env size) found in
        (ground (arith, short), ground (arith, short))

    -- A node that is relocated is an adult member, not excluded, that passes the check, and no other
    -- such member is older.
    pub find_nodes_to_relocate-oldest :
        (env : EnvVar) (self : NetworkKnowledge) (churn_id : XorName) (excluded : List XorName)
        (state : NodeState)
        → In state (find_nodes_to_relocate env self churn_id excluded)
        → In state (section_members self)
          × (is_adult self (node_name state) ≡ true)
          × (relocation_check (node_age state) churn_id ≡ true)
          × (Sets.contains (node_name state) excluded ≡ false)
          × ((other : NodeState)
              → In other (section_members self)
              → is_candidate self churn_id excluded other ≡ true
              → node_age other ≤ node_age state)
    unfolding find_nodes_to_relocate is_candidate
    find_nodes_to_relocate-oldest env self churn_id excluded state k =
        let size = length (section_members self) in
        elim (Bool-cases (leb size (recommended_section_size env))) [
          | inl y ↦ absurd (rw (y, find_nodes_to_relocate) at k)
          | inr z ↦
              let (kept, oldest) =
                take_oldest-oldest (allowed_relocations env size)
                  (candidates self churn_id excluded) state (rw (z, find_nodes_to_relocate) at k) in
              let (member, passes) = (candidates_iff self churn_id excluded state).0 kept in
              (
                member,
                ground (arith, passes),
                ground (arith, passes),
                ground (arith, passes),
                λ other there able.
                    oldest other ((candidates_iff self churn_id excluded other).1 (there, able)),
              )
        ]
