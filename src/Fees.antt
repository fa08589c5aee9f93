-- ===== src/Fees.antt =====
-- The fee that an elder requires: `RequiredFeeContent` of
-- sn_interface/src/types/fees/required_fee_content.rs and `RequiredFee` of
-- required_fee.rs, with its amount encrypted to the DBC.
pub mod Readable
use safe_network_archive.Bytes.{to_be_bytes, from_be_bytes, drop}
use safe_network_archive.Extern.{Tokens, Dbcs}
use safe_network_archive.Prelude.{
  ℕ, ltb, length, take, List, [], ◌∷◌, ◌++◌, Option, none, some, Result, ok, err, if◌then◌else◌,
}

pub data FeeError : Type 0 where
  amount_decryption_failed required_fee_signature_invalid : FeeError

-- `to_le_bytes` and `from_le_bytes`, the lowest byte first.
abbrev pub reversed : List ℕ → List ℕ
reversed [] = []
reversed (octet ∷ octets) = reversed octets ++ octet ∷ []

abbrev pub amount_size : ℕ
amount_size = 8

module _ ⦃t : Tokens⦄ ⦃d : Dbcs⦄ where
  pub record RequiredFeeContent : Type 0 where
    pub amount_cipher : d.Ciphertext
    pub elder_reward_key : d.DbcKey

  unfoldable pub new : t.Token → d.DbcKey → d.DbcKey → RequiredFeeContent
  new amount dbc_id elder_reward_key = record {
    amount_cipher = d.encrypt dbc_id (reversed (to_be_bytes amount_size (t.as_nano amount)));
    elder_reward_key = elder_reward_key;
  }

  -- The outer option is the panic of the slice, for a plain text that is too short.
  abbrev pub read_amount : Option (List ℕ) → Option (Result FeeError t.Token)
  read_amount none = some (err amount_decryption_failed)
  read_amount (some octets) =
      if ltb (length octets) amount_size
      then none
      else some (ok (t.from_nano (from_be_bytes (reversed (take amount_size octets)))))

  unfoldable pub decrypt_amount :
      RequiredFeeContent → d.DbcSecret → Option (Result FeeError t.Token)
  decrypt_amount self dbc_secret_key = read_amount (d.decrypt dbc_secret_key self.amount_cipher)

  unfoldable pub to_bytes : RequiredFeeContent → List ℕ
  to_bytes self = d.cipher_bytes self.amount_cipher ++ d.key_bytes self.elder_reward_key

  pub record RequiredFee : Type 0 where
    pub content : RequiredFeeContent
    pub elder_reward_key_sig : d.DbcSignature

  unfoldable pub require : t.Token → d.DbcKey → d.DbcSecret → RequiredFee
  unfolding new to_bytes
  require amount dbc_id elder_reward_key_secret =
      let content = new amount dbc_id (d.dbc_public_key elder_reward_key_secret) in
      record {
        content = content;
        elder_reward_key_sig = d.sign elder_reward_key_secret (to_bytes content);
      }

  unfoldable pub verify : RequiredFee → Result FeeError (Unit {0})
  unfolding to_bytes
  verify self =
      if d.verify (RequiredFeeContent.elder_reward_key self.content) self.elder_reward_key_sig
        (to_bytes self.content)
      then ok tt
      else err required_fee_signature_invalid
