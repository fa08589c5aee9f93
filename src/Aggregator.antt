-- ===== src/Aggregator.antt =====
-- `SignatureAggregator` and `TotalParticipationAggregator` of
-- sn_interface/src/messaging/signature_aggregator.rs, with `SectionSigShare` and `SectionSig` of
-- sn_interface/src/messaging/system/section_sig.rs.
pub mod Collect
use safe_network_archive.Extern.{BlsKeys, PublicKey, Signature, PublicKeySet, ThresholdKeys}
use safe_network_archive.Prelude.Map
use safe_network_archive.Prelude.Orders.{pair_ord, ord_by}
use safe_network_archive.Prelude.Sets
use safe_network_archive.Prelude.{
  ℕ, ◌≡◌, refl, Bool, true, false, not, List, [], ◌∷◌, ◌++◌, map, Option, none, some, Result, ok,
  err, ltb, ◌==◌, length, Ord, nat_ord, if◌then◌else◌,
}

pub data AggregatorError : Type 0 where
  invalid_sig_share failed_to_combine_sig_shares : AggregatorError

module _ ⦃b : BlsKeys⦄ ⦃s : ThresholdKeys⦄ where
  pub record SectionSigShare : Type 0 where
    pub public_key_set : PublicKeySet
    pub index : ℕ
    pub signature_share : s.SignatureShare

  pub record SectionSig : Type 0 where
    pub public_key : PublicKey
    pub signature : Signature

  -- `derive(Ord)`: by the fields in their order.
  abbrev pub ShareParts : Type 0
  ShareParts = PublicKeySet × (ℕ × s.SignatureShare)

  abbrev pub share_parts : SectionSigShare → ShareParts
  share_parts share = (share.public_key_set, (share.index, share.signature_share))

  pub SectionSigShare-injective : (p q : SectionSigShare) → share_parts p ≡ share_parts q → p ≡ q
  SectionSigShare-injective p q e =
      λ i. record { public_key_set = (e i).0; index = (e i).1.0; signature_share = (e i).1.1 }

  instance abbrev pub sig_share_ord : Ord SectionSigShare
  sig_share_ord =
      ord_by share_parts SectionSigShare-injective
        (pair_ord s.set_ord (pair_ord nat_ord s.share_ord))

  instance abbrev digests : Ord s.Digest
  digests = s.digest_ord

  unfoldable pub verify : SectionSigShare → List ℕ → Bool
  verify share payload =
      s.verify_share share.public_key_set share.index share.signature_share payload

  abbrev pub Aggregator : Type 0
  Aggregator = List (s.Digest × List SectionSigShare)

  -- The key of the map: the digest of the payload and the public key.
  abbrev pub digest_of : List ℕ → SectionSigShare → s.Digest
  digest_of payload share = s.sha3 (payload ++ s.to_bytes (b.public_key share.public_key_set))

  -- `entry(hash).or_default()` with the share inserted.
  abbrev pub shares_with : Aggregator → s.Digest → SectionSigShare → List SectionSigShare
  shares_with self hash share = elim (Map.get hash self) [
    | none ↦ Sets.insert share []
    | some shares ↦ Sets.insert share shares
  ]

  abbrev pub indexed : List SectionSigShare → List (ℕ × s.SignatureShare)
  indexed shares =
      map (λ share. (SectionSigShare.index share, SectionSigShare.signature_share share)) shares

  -- The end of both methods, once the shares are saved.
  unfoldable pub finish :
      Bool
      → Aggregator
      → s.Digest
      → SectionSigShare
      → List SectionSigShare
      → Aggregator × Result AggregatorError (Option SectionSig)
  finish false saved hash share shares = (saved, ok none)
  finish true saved hash share shares =
      elim (s.combine_signatures share.public_key_set (indexed shares)) [
        | none ↦ (saved, err failed_to_combine_sig_shares)
        | some signature ↦ (
          Map.remove hash saved,
          ok (
              some
                (record { public_key = b.public_key share.public_key_set; signature = signature })),
        )
      ]

  -- The common body of the two methods; they differ in the test on the number of shares.
  unfoldable pub aggregate :
      (ℕ → Bool)
      → Aggregator
      → List ℕ
      → SectionSigShare
      → Aggregator × Result AggregatorError (Option SectionSig)
  unfolding verify finish
  aggregate enough self payload share =
      let hash = digest_of payload share in
      let shares = shares_with self hash share in
      if not (verify share payload)
      then (self, err invalid_sig_share)
      else finish (enough (length shares)) (Map.insert hash shares self) hash share shares

  unfoldable pub try_aggregate :
      Aggregator
      → List ℕ
      → SectionSigShare
      → Aggregator × Result AggregatorError (Option SectionSig)
  unfolding aggregate
  try_aggregate self payload share =
      aggregate (λ n. ltb (s.threshold share.public_key_set) n) self payload share

  -- `TotalParticipationAggregator::try_aggregate`.
  unfoldable pub try_aggregate_total :
      Aggregator
      → List ℕ
      → SectionSigShare
      → ℕ
      → Aggregator × Result AggregatorError (Option SectionSig)
  unfolding aggregate
  try_aggregate_total self payload share total_participants =
      aggregate (λ n. n == total_participants) self payload share
