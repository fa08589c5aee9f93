-- ===== src/Transfers/Balance.antt =====
-- No tokens are made or lost by the choice of the inputs.
use safe_network_archive.Extern.{Tokens, Dbcs, XorNames}
use safe_network_archive.Fees.{RequiredFee}
use safe_network_archive.Membership.{EnvVar}
use safe_network_archive.Prelude.{
  ◌+◌, ◌-◌, ◌≡◌, refl, ap, subst, sym, ◌∙◌, ◌⊎◌, inl, inr, List, [], ◌∷◌, ◌++◌, map, Option, none,
  some, ok, ltb→ge, ◌==◌, Option-cases, fueled_cases, Bool-cases, arith, ==_iff,
}
use safe_network_archive.Sap.{NodeId}
use safe_network_archive.Transfers.{
  TransferError, ElderFee, Selection, Round, again, stop, failed, sum_from, zero_token, pay_fees,
  cover, spend_with_fees, elder_fees_of, select_one, select_loop, verify_amounts, start,
  select_inputs,
}
use safe_network_archive.Transfers.Totals.{
  total, balance, balances, output_amounts, balances-append, sum_from-total, add_fee_outputs-total,
}

module _ ⦃x : XorNames⦄ ⦃t : Tokens⦄ ⦃d : Dbcs⦄ where
  Round-cases :
      (round : Round)
      → ((e : TransferError) × (round ≡ failed e))
        ⊎ (((self : Selection) × (round ≡ stop self)) ⊎ ((self : Selection) × (round ≡ again self)))
  Round-cases (failed e) = inl (e, refl)
  Round-cases (stop self) = inr (inl (self, refl))
  Round-cases (again self) = inr (inr (self, refl))

  -- The totals are those of the inputs and of the outputs.
  pub record IsCounted (self : Selection) : Type 0 where
    pub inputs : balances self.input_dbcs_to_spend ≡ t.as_nano self.total_input_amount
    pub outputs : total (output_amounts self.recipients) ≡ t.as_nano self.total_output_amount

  -- What is missing while the loop runs, and what is over when it stopped.
  abbrev Pending : Selection → Type 0
  Pending self =
      t.as_nano self.change_amount + t.as_nano self.total_input_amount
      ≡ t.as_nano self.total_output_amount

  abbrev Covered : Selection → Type 0
  Covered self =
      t.as_nano self.total_output_amount + t.as_nano self.change_amount
      ≡ t.as_nano self.total_input_amount

  abbrev RoundHolds : Round → Type 0
  RoundHolds (again self) = IsCounted self × Pending self
  RoundHolds (stop self) = IsCounted self × Covered self
  RoundHolds (failed e) = Unit

  -- The loop variables after an input whose amounts all fit.
  covered_by : Selection → d.Dbc → t.Token → t.Token → t.Token → Selection
  covered_by self dbc total_input total_output change = record self {
    input_dbcs_to_spend = self.input_dbcs_to_spend ++ dbc ∷ [];
    total_input_amount = total_input;
    total_output_amount = total_output;
    change_amount = change;
  }

  module _ (self : Selection) (dbc : d.Dbc) (dbc_balance fee_per_input : t.Token)
      (bearer : d.revealed_amount_bearer dbc ≡ some dbc_balance)
      (inputs : balances self.input_dbcs_to_spend ≡ t.as_nano self.total_input_amount)
      (outputs : total (output_amounts self.recipients)
        ≡ t.as_nano self.total_output_amount + t.as_nano fee_per_input)
      (pending : Pending self) where
    covered_by-IsCounted :
        (total_input total_output change : t.Token)
        → t.checked_add self.total_input_amount dbc_balance ≡ some total_input
        → t.checked_add self.total_output_amount fee_per_input ≡ some total_output
        → IsCounted (covered_by self dbc total_input total_output change)
    unfolding covered_by
    covered_by-IsCounted total_input total_output change e f =
        let added = t.checked_add-some self.total_input_amount dbc_balance total_input e in
        let paid = t.checked_add-some self.total_output_amount fee_per_input total_output f in
        let held : balance dbc ≡ t.as_nano dbc_balance =
          ap (λ (o : Option t.Token). elim o [ none ↦ 0 | some amount ↦ t.as_nano amount ])
            bearer in
        let grown = balances-append self.input_dbcs_to_spend (dbc ∷ []) in
        record {
          inputs = omega (arith, grown, held, added, inputs);
          outputs = omega (arith, paid, outputs);
        }

    cover-RoundHolds : RoundHolds (cover self dbc dbc_balance fee_per_input)
    unfolding cover covered_by
    cover-RoundHolds = elim (Option-cases (t.checked_add self.total_input_amount dbc_balance)) [
      | inl e ↦ rw (e, cover) tt
      | inr (total_input, e) ↦
          elim (Option-cases (t.checked_add self.total_output_amount fee_per_input)) [
            | inl f ↦ rw (e, cover, f) tt
            | inr (total_output, f) ↦
                elim (Option-cases (t.checked_add self.change_amount fee_per_input)) [
                  | inl g ↦ rw (e, cover, f, g) tt
                  | inr (due, g) ↦
                      let added =
                        t.checked_add-some self.total_input_amount dbc_balance total_input e in
                      let paid =
                        t.checked_add-some self.total_output_amount fee_per_input total_output f in
                      let owed = t.checked_add-some self.change_amount fee_per_input due g in
                      elim (Option-cases (t.checked_sub due dbc_balance)) [
                        | inl h ↦
                            let over = t.checked_sub-none due dbc_balance h in
                            let change =
                              t.as_nano-from_nano (t.as_nano dbc_balance - t.as_nano due)
                                (omega (arith, t.as_nano-lt dbc_balance)) in
                            rw (e, cover, f, g, h)
                              (
                                covered_by-IsCounted total_input total_output
                                    (t.from_nano (t.as_nano dbc_balance - t.as_nano due)) e f,
                                omega (arith, over, change, added, paid, owed, pending),
                              )
                        | inr (left, h) ↦
                            let rest = t.checked_sub-some due dbc_balance left h in
                            elim (Bool-cases (t.as_nano left == 0)) [
                              | inl z ↦
                                  rw (e, cover, f, g, h, z)
                                    (
                                      covered_by-IsCounted total_input total_output left e f,
                                      omega (
                                        arith,
                                        (==_iff (t.as_nano left) 0).0 z,
                                        rest,
                                        added,
                                        paid,
                                        owed,
                                        pending,
                                      ),
                                    )
                              | inr n ↦
                                  rw (e, cover, f, g, h, n)
                                    (
                                      covered_by-IsCounted total_input total_output left e f,
                                      omega (arith, rest, added, paid, owed, pending),
                                    )
                            ]
                      ]
                ]
          ]
    ]

  -- A round keeps the account, since a bearer's DBC has an amount.
  spend_with_fees-RoundHolds :
      (self : Selection) (dbc : d.Dbc) (secret : d.DbcSecret) (input_key : d.DbcKey)
      (fees : List ElderFee)
      → d.as_revealed_input_bearer dbc ≡ some secret
      → IsCounted self
      → Pending self
      → RoundHolds (spend_with_fees self dbc input_key fees)
  unfolding spend_with_fees pay_fees
  spend_with_fees-RoundHolds self dbc secret input_key fees bearer counted pending =
      elim (Option-cases (sum_from (some zero_token) (map (λ e. e.1) fees))) [
        | inl e ↦ rw (e, spend_with_fees) tt
        | inr (fee_per_input, e) ↦ elim (Option-cases (d.revealed_amount_bearer dbc)) [
          | inl f ↦ absurd (cc (d.bearer_amount dbc f))
          | inr (dbc_balance, f) ↦
              let paid = sum_from-total zero_token fee_per_input (map (λ e. e.1) fees) e in
              let grown = add_fee_outputs-total fees self.recipients [] self.rng in
              let none_yet = t.as_nano-from_nano 0 (omega arith) in
              rw (e, spend_with_fees, f)
                (cover-RoundHolds (pay_fees self input_key fees) dbc dbc_balance fee_per_input f
                  counted.inputs (omega (arith, paid, grown, none_yet, counted.outputs)) pending)
        ]
      ]

  module _ (env : EnvVar) (get_section_fees : d.DbcKey → Option (List (NodeId × RequiredFee))) where
    select_one-RoundHolds :
        (self : Selection) (dbc : d.Dbc) (round : Round)
        → IsCounted self
        → Pending self
        → select_one env get_section_fees self dbc ≡ some round
        → RoundHolds round
    unfolding select_one
    select_one-RoundHolds self dbc round counted pending h =
        elim (Option-cases (d.as_revealed_input_bearer dbc)) [
          | inl e ↦
              let same : again self ≡ round = cc (rw (e, select_one) at h) in
              rw (← same) (counted, pending)
          | inr (secret, e) ↦ elim (Option-cases (elder_fees_of env get_section_fees secret)) [
            | inl f ↦ absurd (cc (rw (e, select_one, f) at h))
            | inr (fees_of, f) ↦ elim (Option-cases fees_of) [
              | inl g ↦
                  let same : again self ≡ round = cc (rw (e, select_one, f, g) at h) in
                  rw (← same) (counted, pending)
              | inr (fees, g) ↦
                  let same : spend_with_fees self dbc (d.dbc_public_key secret) fees ≡ round =
                    cc (rw (e, select_one, f, g) at h) in
                  rw (← same) (
                    spend_with_fees-RoundHolds self dbc secret (d.dbc_public_key secret) fees e
                      counted pending)
            ]
          ]
        ]

    select_loop-account :
        (self selected : Selection) (dbcs : List d.Dbc)
        → IsCounted self
        → Pending self
        → select_loop env get_section_fees self dbcs ≡ some (ok selected)
        → IsCounted selected × (Pending selected ⊎ Covered selected)
    unfolding select_loop
    select_loop-account self selected [] counted pending h =
        let same : self ≡ selected = cc h in rw (← same) (counted, inl pending)
    select_loop-account self selected (dbc ∷ dbcs) counted pending h =
        elim (Option-cases (select_one env get_section_fees self dbc)) [
          | inl e ↦ absurd (cc (rw (e, select_loop) at h))
          | inr (round, e) ↦
              let holds = select_one-RoundHolds self dbc round counted pending e in
              elim (Round-cases round) [
                | inl (failure, f) ↦ absurd (cc (rw (e, select_loop, f) at h))
                | inr (inl (s, f)) ↦
                    let same : s ≡ selected = cc (rw (e, select_loop, f) at h) in
                    let (held, over) = subst RoundHolds f holds in rw (← same) (held, inr over)
                | inr (inr (s, f)) ↦
                    let (held, due) = subst RoundHolds f holds in
                    select_loop-account s selected dbcs held due (rw (e, select_loop, f) at h)
              ]
        ]

    -- Whatever the inputs, the fees and the outputs are: what the chosen DBCs hold is what the
    -- recipients get, with the elders among them, and the change.
    pub select_inputs-balance :
        (rng : d.Rng) (dbcs : List d.Dbc) (recipients : List (t.Token × d.OwnerOnce))
        (selected : Selection)
        → select_inputs env get_section_fees rng dbcs recipients ≡ some (ok selected)
        → balances selected.input_dbcs_to_spend
          ≡ total (output_amounts selected.recipients) + t.as_nano selected.change_amount
    unfolding select_inputs verify_amounts
    select_inputs-balance rng dbcs recipients selected h =
        elim (Option-cases (sum_from (some zero_token) (output_amounts recipients))) [
          | inl e ↦ absurd (cc (rw (e, select_inputs) at h))
          | inr (due, e) ↦
              let first = start recipients rng due in
              let none_yet = t.as_nano-from_nano 0 (omega arith) in
              let sum = sum_from-total zero_token due (output_amounts recipients) e in
              let counted : IsCounted first = record {
                inputs = omega (arith, none_yet);
                outputs = omega (arith, none_yet, sum);
              } in
              elim (fueled_cases (select_loop env get_section_fees first dbcs)) [
                | inl f ↦ absurd (cc (rw (e, select_inputs, f) at h))
                | inr (inl (failure, f)) ↦ absurd (cc (rw (e, select_inputs, f) at h))
                | inr (inr (last, f)) ↦
                    elim (Bool-cases (t.less last.total_input_amount last.total_output_amount)) [
                      | inl g ↦ absurd (cc (rw (e, select_inputs, f, g) at h))
                      | inr g ↦
                          let same : last ≡ selected = cc (rw (e, select_inputs, f, g) at h) in
                          let (held, account) =
                            select_loop-account first last dbcs counted (omega (arith, none_yet))
                              f in
                          let enough =
                            ltb→ge (t.as_nano last.total_input_amount)
                              (t.as_nano last.total_output_amount)
                              (sym (t.less-as_nano last.total_input_amount last.total_output_amount)
                                ∙ g) in
                          rw (← same) (elim account [
                            | inl due_still ↦
                                omega (arith, held.inputs, held.outputs, enough, due_still)
                            | inr over ↦ omega (arith, held.inputs, held.outputs, over)
                          ])
                    ]
              ]
        ]
