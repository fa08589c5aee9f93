-- ===== src/Aggregator/Collect.antt =====
-- What the aggregators store, and what the signatures that they return are combined from.
use safe_network_archive.Aggregator.{
  Aggregator, AggregatorError, SectionSigShare, SectionSig, sig_share_ord, verify, digest_of,
  shares_with, indexed, finish, aggregate, try_aggregate, try_aggregate_total,
}
use safe_network_archive.Extern.{BlsKeys, ThresholdKeys}
use safe_network_archive.Prelude.Map
use safe_network_archive.Prelude.Sets
use safe_network_archive.Prelude.{
  ℕ, ◌<◌, ◌≡◌, refl, sym, ap, subst, ◌∙◌, ◌⊎◌, inl, inr, Bool, true, false, List, [], Option, none,
  some, Result, ok, ltb, ltb→lt, length, Ord, In, ◌=?◌, eq_of_=?, =?-refl, ◌==◌, arith, Bool-cases,
  Option-cases,
}

In-insert :
    {A : Type 0} ⦃o : Ord A⦄ (a b : A) (xs : List A) → In b (Sets.insert a xs) → (b ≡ a) ⊎ In b xs
In-insert a b xs i = elim (Bool-cases (a =? b)) [
  | inl y ↦ inl (sym (eq_of_=? a b y))
  | inr z ↦ inr (
      Sets.In-of_contains b xs
        (ground (arith, Sets.contains-insert a b xs, Sets.contains_of_In b (Sets.insert a xs) i)))
]

module _ ⦃b : BlsKeys⦄ ⦃s : ThresholdKeys⦄ where
  instance abbrev digest_order : Ord s.Digest
  digest_order = s.digest_ord

  -- The share verifies for some payload that has this digest with the share's public key.
  abbrev pub IsVerified : s.Digest → SectionSigShare → Type 0
  IsVerified hash share =
      (payload : List ℕ) × (verify share payload ≡ true) × (digest_of payload share ≡ hash)

  -- Every stored share is verified for the digest that it is stored under.
  abbrev pub AllVerified : Aggregator → Type 0
  AllVerified self =
      (hash : s.Digest) (shares : List SectionSigShare) (share : SectionSigShare)
      → Map.get hash self ≡ some shares
      → In share shares
      → IsVerified hash share

  module _ (self : Aggregator) (payload : List ℕ) (share : SectionSigShare) (all : AllVerified self)
      (verified : verify share payload ≡ true) where
    shares_new :
        Map.get (digest_of payload share) self ≡ none
        → shares_with self (digest_of payload share) share ≡ Sets.insert share []
    shares_new z = ground arith

    shares_old :
        (shares : List SectionSigShare)
        → Map.get (digest_of payload share) self ≡ some shares
        → shares_with self (digest_of payload share) share ≡ Sets.insert share shares
    shares_old shares z = ground arith

    shares_with-IsVerified :
        (other : SectionSigShare)
        → In other (shares_with self (digest_of payload share) share)
        → IsVerified (digest_of payload share) other
    shares_with-IsVerified other i =
        let hash = digest_of payload share in
        elim (Option-cases (Map.get hash self)) [
          | inl z ↦ elim (In-insert share other [] (subst (In other) (shares_new z) i)) [
            | inl e ↦ rw e (payload, verified, refl)
            | inr j ↦ absurd j
          ]
          | inr (shares, z) ↦
              elim (In-insert share other shares (subst (In other) (shares_old shares z) i)) [
                | inl e ↦ rw e (payload, verified, refl)
                | inr j ↦ all hash shares other z j
              ]
        ]

    saved-AllVerified : AllVerified (
        Map.insert
          (digest_of payload share)
          (shares_with self (digest_of payload share) share)
          self)
    saved-AllVerified hash shares other e i =
        let new_hash = digest_of payload share in
        let new_shares = shares_with self new_hash share in
        elim (Bool-cases (new_hash =? hash)) [
          | inl y ↦
              let p : new_shares ≡ shares =
                ground (arith, Map.get-insert new_hash hash new_shares self) in
              subst (λ h. IsVerified h other) (eq_of_=? new_hash hash y)
                (shares_with-IsVerified other (rw p i))
          | inr z ↦
              all hash shares other (ground (arith, Map.get-insert new_hash hash new_shares self)) i
        ]

  remove-AllVerified :
      (h : s.Digest) (self : Aggregator) → AllVerified self → AllVerified (Map.remove h self)
  remove-AllVerified h self all hash shares other e i =
      all hash shares other (ground (arith, Map.get-remove h hash self)) i

  finish-AllVerified :
      (enough : Bool) (saved : Aggregator) (hash : s.Digest) (share : SectionSigShare)
      (shares : List SectionSigShare)
      → AllVerified saved
      → AllVerified (finish enough saved hash share shares).0
  unfolding finish
  finish-AllVerified false saved hash share shares all = all
  finish-AllVerified true saved hash share shares all =
      elim (Option-cases (s.combine_signatures share.public_key_set (indexed shares))) [
        | inl z ↦ rw (z, finish) all
        | inr (sig, z) ↦ rw (z, finish) (remove-AllVerified hash saved all)
      ]

  aggregate-AllVerified :
      (enough : ℕ → Bool) (self : Aggregator) (payload : List ℕ) (share : SectionSigShare)
      → AllVerified self
      → AllVerified (aggregate enough self payload share).0
  unfolding aggregate
  aggregate-AllVerified enough self payload share all = elim (Bool-cases (verify share payload)) [
    | inr z ↦ rw (z, aggregate) all
    | inl y ↦
        let hash = digest_of payload share in
        let shares = shares_with self hash share in
        rw (y, aggregate)
          (finish-AllVerified (enough (length shares)) (Map.insert hash shares self) hash share
            shares (saved-AllVerified self payload share all y))
  ]

  -- If every stored share is verified for the digest that it is stored under, that is so after
  -- `try_aggregate` of either aggregator too, whatever its result is.
  pub try_aggregate-AllVerified :
      (self : Aggregator) (payload : List ℕ) (share : SectionSigShare) (total_participants : ℕ)
      → AllVerified self
      → AllVerified (try_aggregate self payload share).0
        × AllVerified (try_aggregate_total self payload share total_participants).0
  unfolding try_aggregate try_aggregate_total
  try_aggregate-AllVerified self payload share total_participants all = (
    aggregate-AllVerified (λ n. ltb (s.threshold share.public_key_set) n) self payload share all,
    aggregate-AllVerified (λ n. n == total_participants) self payload share all,
  )

  returned :
      {g h : SectionSig}
      → ◌≡◌ {A = Result AggregatorError (Option SectionSig)} (ok (some g)) (ok (some h))
      → g ≡ h
  returned e = ground arith

  finish-combined :
      (enough : Bool) (saved self' : Aggregator) (hash : s.Digest) (share : SectionSigShare)
      (shares : List SectionSigShare) (sig : SectionSig)
      → finish enough saved hash share shares ≡ (self', ok (some sig))
      → (enough ≡ true)
        × (s.combine_signatures share.public_key_set (indexed shares) ≡ some sig.signature)
        × (sig.public_key ≡ b.public_key share.public_key_set)
        × (Map.get hash self' ≡ none)
  unfolding finish
  finish-combined false saved self' hash share shares sig e = absurd (ground arith)
  finish-combined true saved self' hash share shares sig e =
      elim (Option-cases (s.combine_signatures share.public_key_set (indexed shares))) [
        | inl z ↦ absurd (ground arith)
        | inr (signature, z) ↦
            let r = rw (z, finish) at e in
            let state : Map.remove hash saved ≡ self' = λ i. (r i).0 in
            let made : SectionSig = record {
              public_key = b.public_key share.public_key_set;
              signature = signature;
            } in
            let result : made ≡ sig = returned (λ i. (r i).1) in
            (
              refl,
              z ∙ ap (λ (g : SectionSig). some g.signature) result,
              sym (ap (λ (g : SectionSig). g.public_key) result),
              ground (arith, Map.get-remove hash hash saved, =?-refl hash),
            )
      ]

  -- If every stored share is verified for the digest that it is stored under and `try_aggregate`
  -- returns a signature, then it is combined from more shares than the threshold, each of them
  -- verified for the payload's digest, it has the public key of the share's set, and no share is
  -- left under that digest.
  pub try_aggregate-combined :
      (self self' : Aggregator) (payload : List ℕ) (share : SectionSigShare) (sig : SectionSig)
      → AllVerified self
      → try_aggregate self payload share ≡ (self', ok (some sig))
      → (shares : List SectionSigShare) × (s.threshold share.public_key_set < length shares)
        × ((other : SectionSigShare) → In other shares → IsVerified (digest_of payload share) other)
        × (s.combine_signatures share.public_key_set (indexed shares) ≡ some sig.signature)
        × (sig.public_key ≡ b.public_key share.public_key_set)
        × (Map.get (digest_of payload share) self' ≡ none)
  unfolding try_aggregate aggregate
  try_aggregate-combined self self' payload share sig all e =
      let hash = digest_of payload share in
      let shares = shares_with self hash share in
      elim (Bool-cases (verify share payload)) [
        | inr z ↦ absurd (ground arith)
        | inl y ↦
            let (enough, combined, key, gone) =
              finish-combined (ltb (s.threshold share.public_key_set) (length shares))
                (Map.insert hash shares self) self' hash share shares sig (rw y at e) in
            (
              shares,
              ltb→lt _ _ enough,
              shares_with-IsVerified self payload share all y,
              combined,
              key,
              gone,
            )
      ]
