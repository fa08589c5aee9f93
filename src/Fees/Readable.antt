-- ===== src/Fees/Readable.antt =====
-- The client reads the amount that the elder encrypted.
use safe_network_archive.Bytes.{
  to_be_bytes, from_be_bytes, length-to_be_bytes, from_be_bytes-to_be_bytes,
}
use safe_network_archive.Extern.{Tokens, Dbcs}
use safe_network_archive.Fees.{
  RequiredFee, new, require, verify, to_bytes, required_fee_signature_invalid, decrypt_amount,
  read_amount, reversed,
}
use safe_network_archive.Prelude.{
  ℕ, ◌≡◌, refl, ap, ◌∙◌, sym, List, [], ◌∷◌, ◌++◌, none, some, ok, err, take, take-length, length,
  length-append, arith, ltb, if◌then◌else◌,
}

reversed-snoc :
    (octets : List ℕ) (octet : ℕ) → reversed (octets ++ octet ∷ []) ≡ octet ∷ reversed octets
reversed-snoc [] octet = refl
reversed-snoc (o ∷ octets) octet = ap (λ s. s ++ o ∷ []) (reversed-snoc octets octet)

pub reversed_twice : (octets : List ℕ) → reversed (reversed octets) ≡ octets
reversed_twice [] = refl
reversed_twice (octet ∷ octets) =
    reversed-snoc (reversed octets) octet ∙ ap (◌∷◌ octet) (reversed_twice octets)

length-reversed : (octets : List ℕ) → length (reversed octets) ≡ length octets
length-reversed [] = refl
length-reversed (octet ∷ octets) =
    length-append (reversed octets) (octet ∷ []) ∙ omega (arith, length-reversed octets)

decrypt_amount-new :
    ⦃t : Tokens⦄ ⦃d : Dbcs⦄ (amount : t.Token) (secret : d.DbcSecret) (reward_key : d.DbcKey)
    → decrypt_amount (new amount (d.dbc_public_key secret) reward_key) secret
      ≡ some (ok (t.from_nano (t.as_nano amount)))
unfolding decrypt_amount new
decrypt_amount-new ⦃t⦄ ⦃d⦄ amount secret reward_key =
    let nano = t.as_nano amount in
    let octets = reversed (to_be_bytes 8 nano) in
    let size : length octets ≡ 8 =
      length-reversed (to_be_bytes 8 nano) ∙ length-to_be_bytes 8 nano in
    let kept : take 8 octets ≡ octets = ap (λ k. take k octets) (sym size) ∙ take-length octets in
    let value : from_be_bytes (reversed (take 8 octets)) ≡ nano =
      ap (λ part. from_be_bytes (reversed part)) kept
      ∙ ap from_be_bytes (reversed_twice (to_be_bytes 8 nano))
      ∙ from_be_bytes-to_be_bytes 8 nano (omega (arith, t.as_nano-lt amount)) in
    ap read_amount (d.decrypt-encrypt secret octets)
    ∙ ap
        (λ k.
          if ltb k 8
          then none
          else some (ok (t.from_nano (from_be_bytes (reversed (take 8 octets))))))
        size
    ∙ ap (λ n. some (ok (t.from_nano n))) value

-- A fee that an elder requires of a DBC passes verification, and the holder of the DBC reads its
-- amount in nanos.
pub verify-require :
    ⦃t : Tokens⦄ ⦃d : Dbcs⦄ (amount : t.Token) (secret reward_secret : d.DbcSecret)
    → (let fee = require amount (d.dbc_public_key secret) reward_secret in
        (verify fee ≡ ok tt)
        × ((read : t.Token) × (decrypt_amount (RequiredFee.content fee) secret ≡ some (ok read))
            × (t.as_nano read ≡ t.as_nano amount)))
unfolding require verify
verify-require ⦃t⦄ ⦃d⦄ amount secret reward_secret =
    let content = new amount (d.dbc_public_key secret) (d.dbc_public_key reward_secret) in
    (
      ap (λ valid. if valid then ok tt else err required_fee_signature_invalid)
          (d.verify-sign reward_secret (to_bytes content)),
      (
        t.from_nano (t.as_nano amount),
        decrypt_amount-new amount secret (d.dbc_public_key reward_secret),
        t.as_nano-from_nano (t.as_nano amount) (t.as_nano-lt amount),
      ),
    )
