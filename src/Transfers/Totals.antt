-- ===== src/Transfers/Totals.antt =====
-- The sums of tokens, of DBCs and of outputs.
use safe_network_archive.Extern.{Tokens, Dbcs, XorNames}
use safe_network_archive.Fees.{RequiredFeeContent}
use safe_network_archive.Prelude.Map
use safe_network_archive.Prelude.{
  ℕ, ◌+◌, ◌≡◌, refl, ap, sym, ◌∙◌, inl, inr, List, [], ◌∷◌, ◌++◌, map, none, some, Option-cases,
  arith,
}
use safe_network_archive.Transfers.{ElderFee, FeeCipherParams, sum_from, add_fee_outputs}

module _ ⦃x : XorNames⦄ ⦃t : Tokens⦄ ⦃d : Dbcs⦄ where
  abbrev pub total : List t.Token → ℕ
  total [] = 0
  total (token ∷ tokens) = t.as_nano token + total tokens

  -- The amount of a DBC, zero if it is hidden.
  abbrev pub balance : d.Dbc → ℕ
  balance dbc = elim (d.revealed_amount_bearer dbc) [ none ↦ 0 | some amount ↦ t.as_nano amount ]

  abbrev pub balances : List d.Dbc → ℕ
  balances [] = 0
  balances (dbc ∷ dbcs) = balance dbc + balances dbcs

  abbrev pub output_amounts : List (t.Token × d.OwnerOnce) → List t.Token
  output_amounts = map (λ r. r.0)

  pub total-append : (xs ys : List t.Token) → total (xs ++ ys) ≡ total xs + total ys
  total-append [] ys = omega arith
  total-append (token ∷ xs) ys = omega (arith, total-append xs ys)

  pub balances-append : (xs ys : List d.Dbc) → balances (xs ++ ys) ≡ balances xs + balances ys
  balances-append [] ys = omega arith
  balances-append (dbc ∷ xs) ys = omega (arith, balances-append xs ys)

  sum_from-none : (tokens : List t.Token) → sum_from none tokens ≡ none
  sum_from-none [] = refl
  sum_from-none (token ∷ tokens) = sum_from-none tokens

  pub sum_from-total :
      (acc sum : t.Token) (tokens : List t.Token)
      → sum_from (some acc) tokens ≡ some sum
      → t.as_nano sum ≡ t.as_nano acc + total tokens
  sum_from-total acc sum [] h = let same : acc ≡ sum = cc h in omega (arith, ap t.as_nano same)
  sum_from-total acc sum (token ∷ tokens) h = elim (Option-cases (t.checked_add acc token)) [
    | inl e ↦ absurd (cc (sum_from-none tokens, rw e at h))
    | inr (next, e) ↦ omega (
      arith,
      t.checked_add-some acc token next e,
      sum_from-total next sum tokens (ap (λ o. sum_from o tokens) (sym e) ∙ h),
    )
  ]

  pub output_amounts-append :
      (xs ys : List (t.Token × d.OwnerOnce))
      → total (output_amounts (xs ++ ys)) ≡ total (output_amounts xs) + total (output_amounts ys)
  output_amounts-append [] ys = omega arith
  output_amounts-append (r ∷ xs) ys = omega (arith, output_amounts-append xs ys)

  -- The outputs grow by the fees.
  pub add_fee_outputs-total :
      (fees : List ElderFee) (outputs : List (t.Token × d.OwnerOnce)) (params : FeeCipherParams)
      (rng : d.Rng)
      → total (output_amounts (add_fee_outputs fees (outputs, (params, rng))).0)
        ≡ total (output_amounts outputs) + total (map (λ e. e.1) fees)
  unfolding add_fee_outputs
  add_fee_outputs-total [] outputs params rng = omega arith
  add_fee_outputs-total (((elder, required_fee), fee) ∷ fees) outputs params rng =
      let (owner_once, rng') =
        d.from_owner_base rng (RequiredFeeContent.elder_reward_key required_fee.content) in
      add_fee_outputs-total fees (outputs ++ (fee, owner_once) ∷ [])
        (Map.insert ⦃o = x.name_ord⦄ elder.name (required_fee, owner_once) params) rng'
      ∙ omega (arith, output_amounts-append outputs ((fee, owner_once) ∷ []))
