-- ===== src/Transfers/Attempts.antt =====
-- Spending one input: the loop of `reissue_dbcs` of sn_client/src/api/transfers/mod.rs, whose client
-- is a parameter.
use safe_network_archive.Prelude.{
  ℕ, zero, suc, ◌+◌, ◌≤◌, ◌<◌, ◌⊎◌, ◌≡◌, Bool, true, false, List, Option, none, some, Result, ok,
  err, ◌==◌, select, if◌then◌else◌, Option-cases, Bool-cases, inl, inr, arith, refl, subst,
}
use safe_network_archive.Transfers.{TransferError, dbc_reissue_error}

abbrev pub num_of_dbc_reissue_attempts : ℕ
num_of_dbc_reissue_attempts = 5

-- The network, with what it was asked so far, and the shares that it gives.
pub record Spender : Type 1 where
  pub World : Type 0
  pub Share : Type 0
  -- `none` is an error of the client.
  pub spend_dbc : World → Option World
  pub spent_proof_shares : World → Option (List Share × World)
  pub is_for_tx : Share → Bool
  pub verify_shares : List Share → Bool

pub data SpendError : Type 0 where
  client_error : SpendError
  transfer_error : TransferError → SpendError

module _ (client : Spender) where
  open client use {World, Share, spend_dbc, spent_proof_shares, is_for_tx, verify_shares}

  -- The rounds from the one after `attempts` on.
  unfoldable pub spend_attempts : ℕ → ℕ → World → Option (Result SpendError (List Share) × World)
  spend_attempts zero attempts world = none
  spend_attempts (suc fuel) attempts world = elim (spend_dbc world) [
    | none ↦ some (err client_error, world)
    | some asked ↦ elim (spent_proof_shares asked) [
      | none ↦ some (err client_error, asked)
      | some (shares, told) ↦
          let shares_for_current_tx = select is_for_tx shares in
          let rest = spend_attempts fuel (attempts + 1) told in
          if verify_shares shares_for_current_tx
          then some (ok shares_for_current_tx, told)
          else if attempts + 1 == num_of_dbc_reissue_attempts
          then some (err (transfer_error dbc_reissue_error), told)
          else rest
    ]
  ]

  -- The state of the network after some rounds without valid shares.
  pub data Tried : ℕ → World → World → Type 0 where
    untried : (world : World) → Tried 0 world world
    tried :
        {rounds : ℕ} {first asked : World} (before after : World) (shares : List Share)
        → Tried rounds first before
        → spend_dbc before ≡ some asked
        → spent_proof_shares asked ≡ some (shares, after)
        → verify_shares (select is_for_tx shares) ≡ false
        → Tried (suc rounds) first after

  -- What the client answered to a round that ended the loop.
  abbrev pub Proved : World → List Share → World → Type 0
  Proved before shares after =
      (asked : World) × (all : List Share) × (spend_dbc before ≡ some asked)
      × (spent_proof_shares asked ≡ some (all, after))
      × (shares ≡ select is_for_tx all)
      × (verify_shares shares ≡ true)

  abbrev pub Refused : World → World → Type 0
  Refused before after =
      ((spend_dbc before ≡ none) × (after ≡ before))
      ⊎ ((spend_dbc before ≡ some after) × (spent_proof_shares after ≡ none))

  -- The round that ends the loop comes after fewer than five without valid shares.
  abbrev pub EndedBy : World → (World → Type 0) → Type 0
  EndedBy first Last =
      (rounds : ℕ) × (before : World) × (rounds < num_of_dbc_reissue_attempts)
      × Tried rounds first before
      × Last before

  -- Valid shares of the last round, an error of the client in the last round, or five rounds without
  -- valid shares.
  abbrev pub Ends : World → Option (Result SpendError (List Share) × World) → Type 0
  Ends first none = ⊥
  Ends first (some (ok shares, world)) = EndedBy first (λ before. Proved before shares world)
  Ends first (some (err client_error, world)) = EndedBy first (λ before. Refused before world)
  Ends first (some (err (transfer_error e), world)) =
      (e ≡ dbc_reissue_error) × Tried num_of_dbc_reissue_attempts first world

  attempts-Ends :
      (fuel attempts : ℕ) (first world : World)
      → Tried attempts first world
      → fuel + attempts ≡ num_of_dbc_reissue_attempts
      → 1 ≤ fuel
      → Ends first (spend_attempts fuel attempts world)
  unfolding spend_attempts
  attempts-Ends zero attempts first world so_far h l = absurd (omega arith)
  attempts-Ends (suc fuel) attempts first world so_far h l =
      let few : attempts < num_of_dbc_reissue_attempts = omega arith in
      elim (Option-cases (spend_dbc world)) [
        | inl e ↦ rw (e, spend_attempts) (attempts, world, few, so_far, inl (e, refl))
        | inr (asked, e) ↦ elim (Option-cases (spent_proof_shares asked)) [
          | inl f ↦ rw (e, spend_attempts, f) (attempts, world, few, so_far, inr (e, f))
          | inr ((shares, told), f) ↦ elim (Bool-cases (verify_shares (select is_for_tx shares))) [
            | inl y ↦
                rw (e, spend_attempts, f, y)
                  (attempts, world, few, so_far, (asked, shares, e, f, refl, y))
            | inr n ↦
                let once_more = tried world told shares so_far e f n in
                elim (Bool-cases (attempts + 1 == num_of_dbc_reissue_attempts)) [
                  | inl y ↦
                      let last : suc attempts ≡ 5 = ground arith in
                      rw (e, spend_attempts, f, n, y)
                        (refl, subst (λ k. Tried k first told) last once_more)
                  | inr z ↦
                      rw (e, spend_attempts, f, n, z)
                        (attempts-Ends fuel (attempts + 1) first told
                          (subst (λ k. Tried k first told) {x = suc attempts} {y = attempts + 1}
                            (omega arith) once_more)
                          (omega arith) (ground arith))
                ]
          ]
        ]
      ]

  -- From any state of the network the loop ends within five rounds, in one of three ways. It returns
  -- shares that verify, and they are those for the transaction that the client gave in the last round.
  -- Or it returns an error of the client, and in the last round the spend or the query for shares
  -- failed. In both cases the rounds before are fewer than five, and in each of them the client was
  -- asked to spend, gave shares, and these did not verify. Or it returns the error of a failed reissue
  -- after exactly five rounds in which the shares did not verify.
  pub spend_attempts-Ends : (world : World) → Ends world (spend_attempts 5 0 world)
  spend_attempts-Ends world = attempts-Ends 5 0 world world (untried world) refl (omega arith)
