-- ===== src/Tests/Wallets.antt =====
-- A concrete treasury: tokens are numbers modulo two to the 64, a DBC is its secret and its tokens,
-- and a ciphertext its key and its plain text.
use safe_network_archive.Extern.{Tokens, Dbcs}
use safe_network_archive.Prelude.{
  ℕ, ◌+◌, ◌-◌, ◌%◌, ◌^◌, ◌<◌, ◌≤◌, ◌≡◌, refl, List, [], ◌∷◌, Option, none, some, ltb, leb, ◌==◌,
  arith, nat_ord, if◌then◌else◌, ==_iff,
}

abbrev pub value : ℕ → ℕ
value token = token % 2 ^ 64

abbrev pub toy_add : ℕ → ℕ → Option ℕ
toy_add a b = if ltb (value a + value b) (2 ^ 64) then some (value a + value b) else none

abbrev pub toy_sub : ℕ → ℕ → Option ℕ
toy_sub a b = if leb (value b) (value a) then some (value a - value b) else none

pub toy_value-lt : (token : ℕ) → value token < 2 ^ 64
toy_value-lt token = omega arith

pub toy_value_small : (n : ℕ) → n < 2 ^ 64 → value n ≡ n
toy_value_small n h = omega arith

pub toy_add-some : (a b c : ℕ) → toy_add a b ≡ some c → value c ≡ value a + value b
toy_add-some a b c h = ground arith

pub toy_add-none : (a b : ℕ) → toy_add a b ≡ none → 2 ^ 64 ≤ value a + value b
toy_add-none a b h = ground arith

pub toy_sub-some : (a b c : ℕ) → toy_sub a b ≡ some c → value c + value b ≡ value a
toy_sub-some a b c h = ground arith

pub toy_sub-none : (a b : ℕ) → toy_sub a b ≡ none → value a < value b
toy_sub-none a b h = ground arith

instance abbrev pub toy_tokens : Tokens
toy_tokens = record {
  Token = ℕ;
  from_nano = λ n. n;
  as_nano = value;
  checked_add = toy_add;
  checked_sub = toy_sub;
  less = λ a b. ltb (value a) (value b);
  as_nano-lt = toy_value-lt;
  as_nano-from_nano = toy_value_small;
  checked_add-some = toy_add-some;
  checked_add-none = toy_add-none;
  checked_sub-some = toy_sub-some;
  checked_sub-none = toy_sub-none;
  less-as_nano = λ a b. refl;
}

-- The secret of a bearer, and the tokens.
abbrev pub ToyDbc : Type 0
ToyDbc = Option ℕ × ℕ

abbrev pub toy_amount : ToyDbc → Option ℕ
toy_amount (none, tokens) = none
toy_amount (some secret, tokens) = some tokens

pub toy_bearer : (dbc : ToyDbc) → toy_amount dbc ≡ none → ◌≡◌ {A = Option ℕ} dbc.0 none
toy_bearer (none, tokens) h = refl
toy_bearer (some secret, tokens) h = absurd (cc h)

abbrev pub toy_decrypt : ℕ → ℕ × List ℕ → Option (List ℕ)
toy_decrypt secret (key, octets) = if secret == key then some octets else none

pub toy_decrypt_lem :
    (secret : ℕ) (octets : List ℕ) → toy_decrypt secret (secret, octets) ≡ some octets
toy_decrypt_lem secret octets = rw ((==_iff secret secret).1 refl)

instance abbrev pub toy_dbcs : Dbcs
toy_dbcs = record {
  Dbc = ToyDbc;
  DbcKey = ℕ;
  DbcSecret = ℕ;
  Ciphertext = ℕ × List ℕ;
  DbcSignature = ℕ;
  Rng = ℕ;
  OwnerOnce = ℕ × ℕ;
  dbc_key_ord = nat_ord;
  dbc_public_key = λ secret. secret;
  as_revealed_input_bearer = λ dbc. dbc.0;
  revealed_amount_bearer = toy_amount;
  from_owner_base = λ rng key. ((key, rng), rng + 1);
  encrypt = λ key octets. (key, octets);
  decrypt = toy_decrypt;
  cipher_bytes = λ cipher. cipher.1;
  key_bytes = λ key. key ∷ [];
  sign = λ secret octets. secret;
  verify = λ key signature octets. key == signature;
  verify-sign = λ secret octets. (==_iff secret secret).1 refl;
  decrypt-encrypt = toy_decrypt_lem;
  bearer_amount = toy_bearer;
}
