-- ===== src/Transfers.antt =====
-- The choice of the DBCs that pay for outputs and their fees: `select_inputs` of
-- sn_client/src/api/transfers/mod.rs.
pub mod Attempts
pub mod Balance
pub mod Totals
use safe_network_archive.Extern.{Tokens, Dbcs, XorNames, XorName}
use safe_network_archive.Fees.{RequiredFee, RequiredFeeContent, FeeError, decrypt_amount}
use safe_network_archive.Membership.{EnvVar, elder_count, supermajority}
use safe_network_archive.Prelude.Map
use safe_network_archive.Prelude.Sets
use safe_network_archive.Prelude.{
  ℕ, ◌-◌, Bool, List, [], ◌∷◌, ◌++◌, map, Option, none, some, Result, ok, err, ltb, ◌==◌, length,
  Ord, if◌then◌else◌,
}
use safe_network_archive.Sap.{NodeId}

pub data TransferError : Type 0 where
  not_enough_balance dbc_reissue_error : TransferError

module _ ⦃x : XorNames⦄ ⦃t : Tokens⦄ ⦃d : Dbcs⦄ where
  instance abbrev key_order : Ord d.DbcKey
  key_order = d.dbc_key_ord

  instance abbrev name_order : Ord x.XorName
  name_order = x.name_ord

  abbrev pub ElderFee : Type 0
  ElderFee = (NodeId × RequiredFee) × t.Token

  abbrev pub FeeCipherParams : Type 0
  FeeCipherParams = List (XorName × (RequiredFee × d.OwnerOnce))

  -- The variables of the loop.
  pub record Selection : Type 0 where
    pub input_dbcs_to_spend : List d.Dbc
    pub recipients : List (t.Token × d.OwnerOnce)
    pub total_input_amount : t.Token
    pub total_output_amount : t.Token
    pub change_amount : t.Token
    pub all_fee_cipher_params : List (d.DbcKey × FeeCipherParams)
    pub rng : d.Rng

  -- How a round of the loop ends: by `continue` or its end, by `break`, or by an error.
  pub data Round : Type 0 where
    again stop : Selection → Round
    failed : TransferError → Round

  abbrev pub add_to : Option t.Token → t.Token → Option t.Token
  add_to none amount = none
  add_to (some total) amount = t.checked_add total amount

  -- `fold` over `Some(Token::zero())`.
  abbrev pub sum_from : Option t.Token → List t.Token → Option t.Token
  sum_from total [] = total
  sum_from total (amount ∷ amounts) = sum_from (add_to total amount) amounts

  abbrev pub zero_token : t.Token
  zero_token = t.from_nano 0

  -- The fees that decrypt, and the set of the reward keys of the others.
  unfoldable pub decrypt_fees :
      d.DbcSecret → List (NodeId × RequiredFee) → Option (List ElderFee × List d.DbcKey)
  decrypt_fees secret_key [] = some ([], [])
  decrypt_fees secret_key ((elder, fee) ∷ elder_fees) = elim (decrypt_fees secret_key elder_fees) [
    | none ↦ none
    | some (decrypted, invalid_fees) ↦ elim (decrypt_amount fee.content secret_key) [
      | none ↦ none
      | some (ok amount) ↦ some (((elder, fee), amount) ∷ decrypted, invalid_fees)
      | some (err e) ↦
          some
            (decrypted, Sets.insert (RequiredFeeContent.elder_reward_key fee.content) invalid_fees)
    ]
  ]

  -- The fees of one input, unless it is passed over. The outer option is a panic.
  unfoldable pub elder_fees_of :
      EnvVar
      → (d.DbcKey → Option (List (NodeId × RequiredFee)))
      → d.DbcSecret
      → Option (Option (List ElderFee))
  unfolding decrypt_fees
  elder_fees_of env get_section_fees secret_key =
      elim (get_section_fees (d.dbc_public_key secret_key)) [
        | none ↦ some none
        | some elder_fees ↦
            let required_responses = supermajority (elder_count env) in
            if ltb (length elder_fees) required_responses
            then some none
            else elim (decrypt_fees secret_key elder_fees) [
              | none ↦ none
              | some (decrypted, invalid_fees) ↦
                  if ltb (elder_count env - required_responses) (length invalid_fees)
                  then some none
                  else some (some decrypted)
            ]
      ]

  -- Each fee is an output to a new owner of the elder's reward key.
  unfoldable pub add_fee_outputs :
      List ElderFee
      → List (t.Token × d.OwnerOnce) × (FeeCipherParams × d.Rng)
      → List (t.Token × d.OwnerOnce) × (FeeCipherParams × d.Rng)
  add_fee_outputs [] outputs = outputs
  add_fee_outputs (((elder, required_fee), fee) ∷ elder_fees)
        (recipients, (fee_cipher_params, rng)) =
      let (owner_once, rng') =
        d.from_owner_base rng (RequiredFeeContent.elder_reward_key required_fee.content) in
      add_fee_outputs elder_fees (
        recipients ++ (fee, owner_once) ∷ [],
        (Map.insert elder.name (required_fee, owner_once) fee_cipher_params, rng'),
      )

  unfoldable pub pay_fees : Selection → d.DbcKey → List ElderFee → Selection
  unfolding add_fee_outputs
  pay_fees self input_key elder_fees =
      let (recipients, (fee_cipher_params, rng)) =
        add_fee_outputs elder_fees (self.recipients, ([], self.rng)) in
      record self {
        recipients = recipients;
        all_fee_cipher_params = Map.insert input_key fee_cipher_params self.all_fee_cipher_params;
        rng = rng;
      }

  -- The end of a round: the amounts grow by the input and by its fees, and the round stops the loop
  -- when the outputs are covered.
  unfoldable pub cover : Selection → d.Dbc → t.Token → t.Token → Round
  cover self dbc dbc_balance fee_per_input =
      elim (t.checked_add self.total_input_amount dbc_balance) [
        | none ↦ failed dbc_reissue_error
        | some total_input ↦ elim (t.checked_add self.total_output_amount fee_per_input) [
          | none ↦ failed dbc_reissue_error
          | some total_output ↦ elim (t.checked_add self.change_amount fee_per_input) [
            | none ↦ failed dbc_reissue_error
            | some pending ↦
                let covered : t.Token → Selection = λ change. record self {
                  input_dbcs_to_spend = self.input_dbcs_to_spend ++ dbc ∷ [];
                  total_input_amount = total_input;
                  total_output_amount = total_output;
                  change_amount = change;
                } in
                elim (t.checked_sub pending dbc_balance) [
                  | some left ↦
                      if t.as_nano left == 0 then stop (covered left) else again (covered left)
                  | none ↦ stop (covered (t.from_nano (t.as_nano dbc_balance - t.as_nano pending)))
                ]
          ]
        ]
      ]

  -- The part of a round after the fees are known.
  unfoldable pub spend_with_fees : Selection → d.Dbc → d.DbcKey → List ElderFee → Round
  unfolding pay_fees cover
  spend_with_fees self dbc input_key elder_fees =
      elim (sum_from (some zero_token) (map (λ e. e.1) elder_fees)) [
        | none ↦ failed dbc_reissue_error
        | some fee_per_input ↦
            let paid = pay_fees self input_key elder_fees in
            elim (d.revealed_amount_bearer dbc) [
              | none ↦ again paid
              | some dbc_balance ↦ cover paid dbc dbc_balance fee_per_input
            ]
      ]

  unfoldable pub select_one :
      EnvVar → (d.DbcKey → Option (List (NodeId × RequiredFee))) → Selection → d.Dbc → Option Round
  unfolding elder_fees_of spend_with_fees
  select_one env get_section_fees self dbc = elim (d.as_revealed_input_bearer dbc) [
    | none ↦ some (again self)
    | some secret_key ↦ elim (elder_fees_of env get_section_fees secret_key) [
      | none ↦ none
      | some none ↦ some (again self)
      | some (some elder_fees) ↦
          some (spend_with_fees self dbc (d.dbc_public_key secret_key) elder_fees)
    ]
  ]

  unfoldable pub select_loop :
      EnvVar
      → (d.DbcKey → Option (List (NodeId × RequiredFee)))
      → Selection
      → List d.Dbc
      → Option (Result TransferError Selection)
  unfolding select_one
  select_loop env get_section_fees self [] = some (ok self)
  select_loop env get_section_fees self (dbc ∷ dbcs) =
      elim (select_one env get_section_fees self dbc) [
        | none ↦ none
        | some (failed e) ↦ some (err e)
        | some (stop selected) ↦ some (ok selected)
        | some (again selected) ↦ select_loop env get_section_fees selected dbcs
      ]

  unfoldable pub verify_amounts : t.Token → t.Token → Result TransferError (Unit {0})
  verify_amounts total_input_amount total_output_amount =
      if t.less total_input_amount total_output_amount then err not_enough_balance else ok tt

  abbrev pub start : List (t.Token × d.OwnerOnce) → d.Rng → t.Token → Selection
  start recipients rng total_output_amount = record {
    input_dbcs_to_spend = [];
    recipients = recipients;
    total_input_amount = zero_token;
    total_output_amount = total_output_amount;
    change_amount = total_output_amount;
    all_fee_cipher_params = [];
    rng = rng;
  }

  unfoldable pub select_inputs :
      EnvVar
      → (d.DbcKey → Option (List (NodeId × RequiredFee)))
      → d.Rng
      → List d.Dbc
      → List (t.Token × d.OwnerOnce)
      → Option (Result TransferError Selection)
  unfolding select_loop verify_amounts
  select_inputs env get_section_fees rng dbcs recipients =
      elim (sum_from (some zero_token) (map (λ r. r.0) recipients)) [
        | none ↦ some (err dbc_reissue_error)
        | some total_output_amount ↦
            elim (select_loop env get_section_fees (start recipients rng total_output_amount)
              dbcs) [
                | none ↦ none
                | some (err e) ↦ some (err e)
                | some (ok selected) ↦
                    elim (verify_amounts selected.total_input_amount selected.total_output_amount) [
                      | err e ↦ some (err e)
                      | ok _ ↦ some (ok selected)
                    ]
              ]
      ]
