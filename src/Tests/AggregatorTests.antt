-- ===== src/Tests/AggregatorTests.antt =====
-- Runs of the signature aggregators on concrete shares, and their theorems there.
use mathlib.Core.List.{foldl}
use safe_network_archive.Aggregator.Collect.{
  AllVerified, IsVerified, try_aggregate-AllVerified, try_aggregate-combined,
}
use safe_network_archive.Aggregator.{
  Aggregator, SectionSigShare, SectionSig, sig_share_ord, digest_of, indexed, try_aggregate,
  try_aggregate_total,
}
use safe_network_archive.Extern.{ThresholdKeys}
use safe_network_archive.Prelude.Map
use safe_network_archive.Prelude.Sets
use safe_network_archive.Prelude.{
  ℕ, ◌+◌, ◌*◌, ◌<◌, ◌≡◌, refl, List, [], ◌∷◌, none, some, ok, length, In, nat_ord, ◌==◌, arith,
}
use safe_network_archive.Tests.Platform.{toy_bls}

-- Share `index` of the set `k` is `k * 100 + index`; two shares make the signature `k`.
instance abbrev toy_shares : ThresholdKeys
toy_shares = record {
  SignatureShare = ℕ;
  Digest = ℕ;
  set_ord = nat_ord;
  share_ord = nat_ord;
  digest_ord = nat_ord;
  threshold = λ k. 1;
  verify_share = λ k index share payload. share == k * 100 + index;
  combine_signatures = λ k shares. some k;
  to_bytes = λ k. k ∷ [];
  sha3 = λ bytes. foldl (λ acc byte. 31 * acc + byte) 7 bytes;
}

aggregator_program : Unit {0}
unfolding try_aggregate Map.get Map.insert Map.remove Sets.insert
aggregator_program = tt

abbrev share : ℕ → SectionSigShare
share index = record { public_key_set = 5; index = index; signature_share = 500 + index }

abbrev first_shares : Aggregator
first_shares = (digest_of (1 ∷ 2 ∷ []) (share 0), share 0 ∷ []) ∷ []

empty-AllVerified : AllVerified []
unfolding Map.get
empty-AllVerified hash shares other e i = absurd (ground arith)

first : (try_aggregate [] (1 ∷ 2 ∷ []) (share 0)).0 ≡ first_shares
unfolding aggregator_program
first = refl

try_aggregate-AllVerified_run :
    AllVerified (try_aggregate [] (1 ∷ 2 ∷ []) (share 0)).0
    × AllVerified (try_aggregate_total [] (1 ∷ 2 ∷ []) (share 0) 3).0
try_aggregate-AllVerified_run =
    try_aggregate-AllVerified [] (1 ∷ 2 ∷ []) (share 0) 3 empty-AllVerified

first-AllVerified : AllVerified first_shares
unfolding aggregator_program
first-AllVerified = (try_aggregate-AllVerified [] (1 ∷ 2 ∷ []) (share 0) 3 empty-AllVerified).0

abbrev section_sig : SectionSig
section_sig = record { public_key = 5; signature = 5 }

second : try_aggregate first_shares (1 ∷ 2 ∷ []) (share 1) ≡ ([], ok (some section_sig))
unfolding aggregator_program
second = refl

try_aggregate-combined_example :
    (shares : List SectionSigShare) × (1 < length shares)
    × ((other : SectionSigShare)
        → In other shares
        → IsVerified (digest_of (1 ∷ 2 ∷ []) (share 1)) other)
    × (toy_shares.combine_signatures 5 (indexed shares) ≡ some 5)
    × (section_sig.public_key ≡ toy_bls.public_key 5)
    × (Map.get {V = List SectionSigShare} ⦃o = nat_ord⦄ (digest_of (1 ∷ 2 ∷ []) (share 1)) []
        ≡ none)
try_aggregate-combined_example =
    try_aggregate-combined first_shares [] (1 ∷ 2 ∷ []) (share 1) section_sig first-AllVerified
      second
