-- ===== src/History/Sync.antt =====
-- What a decision does to the history, and that a history that is behind catches up.
use safe_network_archive.Errors.{ae_outdated}
use safe_network_archive.Extern.{BlsKeys, PublicKey, XorNames, XorName, Triggers, Decisions}
use safe_network_archive.History.{
  SectionMemberHistory, proposed, rejoins_initial, archive_departed, update, update_peer,
  update_peers, is_member,
}
use safe_network_archive.History.Members.{is_member_lem}
use safe_network_archive.History.Replay.{
  first_known, settled, last_mention, all_proposed, initially,
}
use safe_network_archive.Prelude.{
  ℕ, suc, ◌+◌, ◌≤◌, ◌<◌, ◌≡◌, refl, sym, ap, ◌∙◌, ◌⊎◌, ◌↔◌, inl, inr, Bool, true, false, List, [],
  ◌∷◌, ◌++◌, Option, none, some, ok, err, ◌==◌, is_some, length, length-append, All, append_assoc,
  append-nil, if◌then◌else◌, arith, Bool-cases, subst,
}
use safe_network_archive.Sap.{NodeState, is_joined}

module _ ⦃b : BlsKeys⦄ ⦃x : XorNames⦄ ⦃t : Triggers⦄ ⦃d : Decisions NodeState⦄ where
  -- The decisions have the generations from `n + 1` on, and each is valid for the key.
  abbrev pub IsNumbered : PublicKey → ℕ → List d.Decision → Type 0
  IsNumbered key n [] = Unit {0}
  IsNumbered key n (decision ∷ rest) =
      (d.generation decision ≡ suc n)
      × (d.validate key decision ≡ true)
      × IsNumbered key (suc n) rest

  abbrev pub recorded : SectionMemberHistory → d.Decision → SectionMemberHistory
  recorded self decision = record self {
    decisions = self.decisions ++ decision ∷ [];
    archive = archive_departed self.archive decision (proposed decision);
  }

  -- `update` takes a decision exactly when it lets no initial member join once more, is valid and is
  -- of the next generation, and then records it; a decision that does not rejoin an initial member
  -- and is of a later generation is an error; any other changes nothing.
  pub update_iff :
      (self self' : SectionMemberHistory) (key : PublicKey) (decision : d.Decision)
      → ((update self key decision ≡ ok (self', true)) ↔ (
          (rejoins_initial self decision ≡ false)
          × (d.generation decision ≡ length self.decisions + 1)
          × (d.validate key decision ≡ true)
          × (self' ≡ recorded self decision)))
        × ((update self key decision ≡ err ae_outdated) ↔ (
            (rejoins_initial self decision ≡ false)
            × (length self.decisions + 1 < d.generation decision)))
        × (update self key decision ≡ ok (self', false) → self' ≡ self)
  unfolding update
  update_iff self self' key decision = (
    (λ h. ground arith, λ h. ground arith),
    (λ h. ground arith, λ h. ground arith),
    λ h. ground arith,
  )

  IsNumbered-append :
      (key : PublicKey) (n : ℕ) (ds : List d.Decision) (decision : d.Decision)
      → IsNumbered key n ds
      → d.generation decision ≡ suc (n + length ds)
      → d.validate key decision ≡ true
      → IsNumbered key n (ds ++ decision ∷ [])
  IsNumbered-append key n [] decision h g v = (omega arith, v, tt)
  IsNumbered-append key n (e ∷ ds) decision (a, u, h) g v =
      (a, u, IsNumbered-append key (suc n) ds decision h (omega arith) v)

  update_peer-next :
      (self : SectionMemberHistory) (key : PublicKey) (decision : d.Decision)
      → rejoins_initial self decision ≡ false
      → d.generation decision ≡ length self.decisions + 1
      → d.validate key decision ≡ true
      → update_peer self key decision ≡ (recorded self decision, true)
  unfolding update_peer
  update_peer-next self key decision r g v =
      rw (update_peer, (update_iff self (recorded self decision) key decision).0.1 (r, g, v, refl))

  update_peer-cases :
      (self : SectionMemberHistory) (key : PublicKey) (decision : d.Decision)
      → (update_peer self key decision ≡ (self, false))
        ⊎ ((d.generation decision ≡ length self.decisions + 1)
            × (d.validate key decision ≡ true)
            × (update_peer self key decision ≡ (recorded self decision, true)))
  unfolding update_peer update
  update_peer-cases self key decision = elim (Bool-cases (rejoins_initial self decision)) [
    | inl y ↦ inl (rw (update_peer, update, y))
    | inr z ↦ elim (Bool-cases (d.generation decision == length self.decisions + 1)) [
      | inl y ↦ elim (Bool-cases (d.validate key decision)) [
        | inl w ↦ inr (ground arith, w, update_peer-next self key decision z (ground arith) w)
        | inr w ↦ inl (rw (update_peer, update, z, y, w))
      ]
      | inr w ↦ inl (rw (update_peer, update, z, w) (ground arith))
    ]
  ]

  -- If the decisions are numbered from one and valid for a key, they are so after `update_peers` with
  -- that key, whatever the peers sent.
  pub update_peers-IsNumbered :
      (self : SectionMemberHistory) (key : PublicKey) (peers : List d.Decision)
      → IsNumbered key 0 self.decisions
      → IsNumbered key 0 (SectionMemberHistory.decisions (update_peers self key peers).0)
  unfolding update_peers
  update_peers-IsNumbered self key [] h = h
  update_peers-IsNumbered self key (peer ∷ peers) h = elim (update_peer-cases self key peer) [
    | inl e ↦ rw e (update_peers-IsNumbered self key peers h)
    | inr (g, v, e) ↦ rw e (
        update_peers-IsNumbered (recorded self peer) key peers
          (IsNumbered-append key 0 self.decisions peer h (omega arith) v))
  ]

  -- A decision of a generation that is known already changes nothing.
  update_peer-known :
      (self : SectionMemberHistory) (key : PublicKey) (decision : d.Decision)
      → d.generation decision ≤ length self.decisions
      → update_peer self key decision ≡ (self, false)
  update_peer-known self key decision h = elim (update_peer-cases self key decision) [
    | inl e ↦ e
    | inr (g, _, _) ↦ absurd (omega arith)
  ]

  length-recorded :
      (self : SectionMemberHistory) (decision : d.Decision)
      → length (SectionMemberHistory.decisions (recorded self decision))
        ≡ suc (length self.decisions)
  length-recorded self decision = omega (arith, length-append self.decisions (decision ∷ []))

  update_peers-known :
      (self : SectionMemberHistory) (key : PublicKey) (n : ℕ) (known peers : List d.Decision)
      → IsNumbered key n known
      → n + length known ≤ length self.decisions
      → update_peers self key (known ++ peers) ≡ update_peers self key peers
  unfolding update_peers
  update_peers-known self key n [] peers h l = refl
  update_peers-known self key n (e ∷ known) peers (g, v, h) l =
      rw (update_peer-known self key e (omega arith))
        (update_peers-known self key (suc n) known peers h (omega arith))

  -- No decision lets an initial member join once more.
  abbrev pub NoneRejoins : SectionMemberHistory → List d.Decision → Type 0
  NoneRejoins self ds = All (λ decision. rejoins_initial self decision ≡ false) ds

  update_peers-next :
      (self : SectionMemberHistory) (key : PublicKey) (next : List d.Decision)
      → IsNumbered key (length self.decisions) next
      → NoneRejoins self next
      → SectionMemberHistory.decisions (update_peers self key next).0 ≡ self.decisions ++ next
  unfolding update_peers rejoins_initial
  update_peers-next self key [] h r = sym (append-nil self.decisions)
  update_peers-next self key (e ∷ next) (g, v, h) (r, rs) =
      let next_self = recorded self e in
      rw (update_peer-next self key e r (omega arith) v) (
        update_peers-next next_self key next (rw (length-recorded self e) h) rs
        ∙ append_assoc self.decisions (e ∷ []) next)

  IsNumbered-split :
      (key : PublicKey) (n : ℕ) (ds es : List d.Decision)
      → IsNumbered key n (ds ++ es)
      → IsNumbered key n ds × IsNumbered key (n + length ds) es
  IsNumbered-split key n [] es h = (tt, subst (λ k. IsNumbered key k es) (omega arith) h)
  IsNumbered-split key n (e ∷ ds) es (g, v, h) =
      let (a, b') = IsNumbered-split key (suc n) ds es h in
      ((g, v, a), subst (λ k. IsNumbered key k es) (omega arith) b')

  -- A history whose decisions are the first of a peer's, which are numbered from one, valid for the
  -- key, and of which the later ones let no initial member join once more, has all the peer's
  -- decisions after `update_peers` with them.
  pub update_peers-catches_up :
      (self : SectionMemberHistory) (key : PublicKey) (next : List d.Decision)
      → IsNumbered key 0 (self.decisions ++ next)
      → NoneRejoins self next
      → SectionMemberHistory.decisions (update_peers self key (self.decisions ++ next)).0
        ≡ self.decisions ++ next
  update_peers-catches_up self key next h r =
      let (known, later) = IsNumbered-split key 0 self.decisions next h in
      rw (update_peers-known self key 0 self.decisions next known (omega arith))
        (update_peers-next self key next (subst (λ k. IsNumbered key k next) (omega arith) later) r)

  last_mention-append :
      (n : XorName) (ss us : List NodeState)
      → last_mention n (ss ++ us) ≡ first_known n us (last_mention n ss)
  last_mention-append n [] us = ground arith
  last_mention-append n (s ∷ ss) us = ground (arith, last_mention-append n ss us)

  -- What the states of a decision say of who is a member.
  abbrev pub decided : List NodeState → XorName → Bool → Bool
  decided states n before = elim (last_mention n states) [
    | some last ↦ is_joined last
    | none ↦ before
  ]

  all_proposed-append :
      (ds es : List d.Decision) → all_proposed (ds ++ es) ≡ all_proposed ds ++ all_proposed es
  all_proposed-append [] es = refl
  all_proposed-append (e ∷ ds) es =
      ap (◌++◌ (proposed e)) (all_proposed-append ds es)
      ∙ sym (append_assoc (proposed e) (all_proposed ds) (all_proposed es))

  is_some-settled :
      (n : XorName) (ss us : List NodeState) (before : Option NodeState)
      → is_some (settled n (ss ++ us) before) ≡ decided us n (is_some (settled n ss before))
  is_some-settled n ss us before = ground (arith, last_mention-append n ss us)

  -- The members as a predicate on names refine the decisions: when `update` takes a decision, a name
  -- that it mentions is a member's afterwards exactly when its last state there is joined, and every
  -- other name is a member's if it was; when it takes none, all stay as they are.
  pub is_member-update :
      (self self' : SectionMemberHistory) (key : PublicKey) (decision : d.Decision) (taken : Bool)
      → update self key decision ≡ ok (self', taken)
      → (n : XorName)
      → is_member self' n
        ≡ (if taken then decided (proposed decision) n (is_member self n) else is_member self n)
  is_member-update self self' key decision false h n =
      ap (λ s. is_member s n) ((update_iff self self' key decision).2 h)
  is_member-update self self' key decision true h n =
      let (_, _, _, e) = (update_iff self self' key decision).0.0 h in
      let before = initially self n in
      ap (λ s. is_member s n) e
      ∙ is_member_lem (recorded self decision) n
      ∙ ap (λ states. is_some (settled n states before))
          (all_proposed-append self.decisions (decision ∷ [])
            ∙ ap (◌++◌ (all_proposed self.decisions)) (append-nil (proposed decision)))
      ∙ is_some-settled n (all_proposed self.decisions) (proposed decision) before
      ∙ ap (decided (proposed decision) n) (sym (is_member_lem self n))
