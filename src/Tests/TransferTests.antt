-- ===== src/Tests/TransferTests.antt =====
-- Choices of inputs for a transfer, the fees of their sections, and the theorems there.
use safe_network_archive.Bytes.{zeros}
use safe_network_archive.Fees.{RequiredFee, new, require, verify, decrypt_amount, to_bytes}
use safe_network_archive.Fees.Readable.{verify-require}
use safe_network_archive.Membership.{missing, elder_count, supermajority}
use safe_network_archive.Prelude.{
  ℕ, ◌+◌, ◌≡◌, refl, true, select, List, [], ◌∷◌, Option, none, some, ok, err, length, ◌==◌,
  nat_ord,
}
use safe_network_archive.Prelude.Map
use safe_network_archive.Prelude.Sets
use safe_network_archive.Sap.{NodeId}
use safe_network_archive.Tests.Names.{toy_names}
use safe_network_archive.Tests.Wallets.{toy_tokens, toy_dbcs, ToyDbc, value}
use safe_network_archive.Transfers.{
  Selection, start, decrypt_fees, elder_fees_of, add_fee_outputs, pay_fees, cover, spend_with_fees,
  select_one, select_loop, verify_amounts, select_inputs, not_enough_balance, dbc_reissue_error,
}
use safe_network_archive.Transfers.Attempts.{
  Spender, transfer_error, spend_attempts, Ends, spend_attempts-Ends,
}
use safe_network_archive.Transfers.Balance.{select_inputs-balance}
use safe_network_archive.Transfers.Totals.{balances, total, output_amounts}

transfer_program : Unit {0}
unfolding new require verify decrypt_amount to_bytes decrypt_fees elder_fees_of add_fee_outputs
    pay_fees cover spend_with_fees select_one select_loop verify_amounts select_inputs elder_count
    supermajority Map.insert Sets.insert
transfer_program = tt

-- An elder and the fee that it requires for the DBC of a key.
abbrev asked : ℕ → ℕ → ℕ → NodeId × RequiredFee
asked elder fee key = (record { name = elder; addr = elder }, require fee key (100 + elder))

-- Each of the seven elders wants one nano.
abbrev section_fees : ℕ → Option (List (NodeId × RequiredFee))
section_fees key = some (
    asked 1 1 key
    ∷ asked 2 1 key
    ∷ asked 3 1 key
    ∷ asked 4 1 key
    ∷ asked 5 1 key
    ∷ asked 6 1 key
    ∷ asked 7 1 key
    ∷ [])

-- Of DBCs of 10, 40 and 90 nanos the first two pay 20 nanos and 14 nanos of fees, with 16 left over.
abbrev wallet : List ToyDbc
wallet = (some 11, 10) ∷ (none, 500) ∷ (some 12, 40) ∷ (some 13, 90) ∷ []

abbrev chosen : Selection
chosen = elim (select_inputs missing section_fees 0 wallet ((20, (77, 0)) ∷ [])) [
  | some (ok selected) ↦ selected
  | other ↦ start [] 0 0
]

-- The DBCs of 10 and 40 are spent, and the one that is no bearer's is passed over.
abbrev dbc_10 : ToyDbc
dbc_10 = (some 11, 10)

abbrev dbc_40 : ToyDbc
dbc_40 = (some 12, 40)

chosen_inputs : chosen.input_dbcs_to_spend ≡ dbc_10 ∷ dbc_40 ∷ []
unfolding transfer_program
chosen_inputs = refl

chosen_change : chosen.change_amount ≡ 16
unfolding transfer_program
chosen_change = refl

too_little :
    select_inputs missing section_fees 0 wallet ((200, (77, 0)) ∷ [])
    ≡ some (err not_enough_balance)
unfolding transfer_program
too_little = refl

select_inputs-balance_example :
    balances chosen.input_dbcs_to_spend ≡ total (output_amounts chosen.recipients) + 16
unfolding transfer_program
select_inputs-balance_example =
    select_inputs-balance missing section_fees 0 wallet ((20, (77, 0)) ∷ []) chosen refl

-- Five of seven elders answer, two of them for another key: three fees are taken for a supermajority
-- of five.
abbrev few_fees : ℕ → Option (List (NodeId × RequiredFee))
few_fees key =
    some (asked 1 1 key ∷ asked 2 1 key ∷ asked 3 1 key ∷ asked 4 1 99 ∷ asked 5 1 99 ∷ [])

abbrev fees_taken : ℕ
fees_taken = elim (elder_fees_of missing few_fees 11) [ some (some fees) ↦ length fees | other ↦ 0 ]

three_fees_taken : fees_taken ≡ 3
unfolding transfer_program
three_fees_taken = refl

verify-require_example :
    (verify (require 1234 5 6) ≡ ok tt)
    × ((read : ℕ) × (decrypt_amount (RequiredFee.content (require 1234 5 6)) 5 ≡ some (ok read))
        × (value read ≡ 1234))
unfolding transfer_program
verify-require_example = verify-require 1234 5 6

-- A network that gives a share for each time that it was asked, and wants three for a proof.
abbrev slow_network : Spender
slow_network = record {
  World = ℕ;
  Share = ℕ;
  spend_dbc = λ asked. some (asked + 1);
  spent_proof_shares = λ asked. some (zeros asked, asked);
  is_for_tx = λ share. true;
  verify_shares = λ shares. length shares == 3;
}

third_time : spend_attempts slow_network 5 0 0 ≡ some (ok (0 ∷ 0 ∷ 0 ∷ []), 3)
unfolding spend_attempts select
third_time = refl

spent_already :
    spend_attempts slow_network 5 0 7 ≡ some (err (transfer_error dbc_reissue_error), 12)
unfolding spend_attempts select
spent_already = refl

spend_attempts-Ends_example : Ends slow_network 7 (spend_attempts slow_network 5 0 7)
spend_attempts-Ends_example = spend_attempts-Ends slow_network 7
