-- ===== src/Gas/Conserve.antt =====
-- core/gaspool.go and core/state_transition.go: no gas is made or lost.
use zond.Prelude.{
  ℕ, ◌+◌, ◌-◌, ◌*◌, sym, if-cases, ◌%◌, ◌^◌, ◌≤◌, ◌<◌, ◌≡◌, refl, ap, ◌∙◌, Bool, true, false, some,
  if◌then◌else◌, arith,
}
use native.Mathlib.Nat.{mul_comm, mul-add}
use zond.Prelude.Int.{ℤ, pos, ltb_ℤ, ◌+ℤ◌, ◌-ℤ◌, ◌≤ℤ◌, int_laws}
use zond.Gas.{
  ok, error, insufficient_funds, Fees, balance_check, add_gas, sub_gas, Purse, bought, returned,
  buy_gas, gas_used, capped_refund, refund_gas,
}

-- params.RefundQuotient and RefundQuotientEIP3529
abbrev pub quotient_of : Bool → ℕ
quotient_of london = if london then 5 else 2

-- the purse of a new transition, and one after the execution that left `gas`
abbrev pub opened : ℕ → ℤ → Purse
opened gp balance = record { gas = 0; initial_gas = 0; pool = gp; balance = balance }

abbrev pub executed : ℕ → ℕ → ℕ → ℤ → Purse
executed gp limit gas balance = record {
  gas = gas;
  initial_gas = limit;
  pool = gp - limit;
  balance = balance;
}

buys :
    (gp limit : ℕ) (fees : Fees) (balance : ℤ)
    → gp < 2 ^ 64
    → limit ≤ gp
    → pos (balance_check fees limit) ≤ℤ balance
    → buy_gas (opened gp balance) fees limit
      ≡ ok (executed gp limit limit (balance -ℤ pos (limit * fees.gas_price)))
unfolding buy_gas bought
buys gp limit fees balance h k rich =
    if-cases (λ o. o ≡ ok (executed gp limit limit (balance -ℤ pos (limit * fees.gas_price))))
      (ltb_ℤ balance (pos (balance_check fees limit))) (λ t. absurd (ground arith))
      (λ t.
        ap (bought (opened gp balance) fees limit) enough
        ∙ ap (λ n. ok (executed gp limit n (balance -ℤ pos (limit * fees.gas_price)))) no_wrap)
  where
    enough : sub_gas gp limit ≡ ok (gp - limit)
    enough = unfold sub_gas in ground arith

    no_wrap : (0 + limit) % 2 ^ 64 ≡ limit
    no_wrap = omega arith

-- buyGas refuses exactly where the balance or the pool is too small.
refuses :
    (gp limit : ℕ) (fees : Fees) (balance : ℤ)
    → (ltb_ℤ balance (pos (balance_check fees limit)) ≡ true
        → buy_gas (opened gp balance) fees limit ≡ error insufficient_funds)
unfolding buy_gas bought
refuses gp limit fees balance t =
    ap
      (λ b.
        if b
        then error insufficient_funds
        else bought (opened gp balance) fees limit (sub_gas gp limit))
      t

-- The refund is capped by the counter and by the gas used.
refund_bounds :
    (gp limit gas counter : ℕ) (balance : ℤ) (london : Bool)
    → limit < 2 ^ 64
    → gas ≤ limit
    → (capped_refund (executed gp limit gas balance) counter (quotient_of london) ≤ counter)
      × (capped_refund (executed gp limit gas balance) counter (quotient_of london) ≤ limit - gas)
unfolding capped_refund gas_used
refund_bounds gp limit gas counter balance true h k = ground arith
refund_bounds gp limit gas counter balance false h k = ground arith

adds : (pool gas : ℕ) → pool + gas < 2 ^ 64 → add_gas pool gas ≡ some (pool + gas)
unfolding add_gas
adds pool gas h = ground arith

-- the purse after a refund
abbrev refunded : ℕ → ℕ → ℕ → ℤ → Fees → Purse
refunded gp limit gas balance fees = record {
  gas = gas;
  initial_gas = limit;
  pool = gp - limit + gas;
  balance = balance +ℤ pos (gas * fees.gas_price);
}

refunds :
    (gp limit gas counter : ℕ) (london : Bool) (fees : Fees) (balance : ℤ)
    → gp < 2 ^ 64
    → limit ≤ gp
    → gas ≤ limit
    → (refund : ℕ) × (refund ≤ counter)
      × (refund ≤ limit - gas)
      × (refund_gas (executed gp limit gas balance) fees counter (quotient_of london)
          ≡ some (refunded gp limit (gas + refund) balance fees))
refunds gp limit gas counter london fees balance h k l =
    let r = capped_refund (executed gp limit gas balance) counter (quotient_of london) in
    let (b, c) = refund_bounds gp limit gas counter balance london (omega arith) l in
    (r, b, c, after_refund r refl c)
  where
    after_refund :
        (r : ℕ)
        → capped_refund (executed gp limit gas balance) counter (quotient_of london) ≡ r
        → r ≤ limit - gas
        → refund_gas (executed gp limit gas balance) fees counter (quotient_of london)
          ≡ some (refunded gp limit (gas + r) balance fees)
    after_refund r e c =
        let st = executed gp limit gas balance in
        let whole : (gas + r) % 2 ^ 64 ≡ gas + r = omega arith in
        unfold refund_gas returned in
        (ap (λ n. returned st fees n (add_gas (gp - limit) n))
            (ap (λ x. (gas + x) % 2 ^ 64) e ∙ whole)
          ∙ ap (returned st fees (gas + r)) (adds (gp - limit) (gas + r) (omega arith)))

-- what is left and what is used are paid for together
paid_together :
    (limit gas price : ℕ) → gas ≤ limit → gas * price + (limit - gas) * price ≡ limit * price
paid_together limit gas price h =
    ap (λ n. n + (limit - gas) * price) (mul_comm gas price)
    ∙ ap (λ n. price * gas + n) (mul_comm (limit - gas) price)
    ∙ sym (mul-add price gas (limit - gas))
    ∙ ap (λ n. price * n) (omega arith)
    ∙ mul_comm price limit

-- With a pool of 64 bits, a gas limit within it and a balance that is at least what buyGas
-- checks, buyGas buys the limit and takes its price from the balance. Whatever gas and balance
-- the execution leaves, refundGas then does not panic; the pool and the gas used add up to the
-- pool before; the gas used is at most what the execution used and at least that less the refund
-- counter; and the balance after it and the price of the gas used add up to the balance that the
-- execution left and the price of the limit. Where the balance is less than what buyGas checks,
-- it answers ErrInsufficientFunds.
pub gas_conserved :
    (gp limit gas counter : ℕ) (london : Bool) (fees : Fees) (balance other later : ℤ)
    → gp < 2 ^ 64
    → limit ≤ gp
    → gas ≤ limit
    → pos (balance_check fees limit) ≤ℤ balance
    → ltb_ℤ other (pos (balance_check fees limit)) ≡ true
    → (buy_gas (opened gp balance) fees limit
        ≡ ok (executed gp limit limit (balance -ℤ pos (limit * fees.gas_price))))
      × (buy_gas (opened gp other) fees limit ≡ error insufficient_funds)
      × (st : Purse) × (refund_gas (executed gp limit gas later) fees counter (quotient_of london)
          ≡ some st)
      × (st.pool + gas_used st ≡ gp)
      × (gas_used st ≤ limit - gas)
      × (limit - gas ≤ gas_used st + counter)
      × (st.balance +ℤ pos (gas_used st * fees.gas_price) ≡ later +ℤ pos (limit * fees.gas_price))
unfolding gas_used
gas_conserved gp limit gas counter london fees balance other later h k l rich poor =
    let (r, b, c, e) = refunds gp limit gas counter london fees later h k l in
    let used : (limit + 2 ^ 64 - (gas + r)) % 2 ^ 64 ≡ limit - (gas + r) = omega arith in
    (
      buys gp limit fees balance h k rich,
      refuses gp limit fees other poor,
      refunded gp limit (gas + r) later fees,
      e,
      omega arith,
      omega arith,
      omega arith,
      ap (λ n. later +ℤ pos ((gas + r) * fees.gas_price) +ℤ pos (n * fees.gas_price)) used
          ∙ sums later _ _ _ (paid_together limit (gas + r) fees.gas_price (omega arith)),
    )
  where
    sums : (x : ℤ) (a b c : ℕ) → a + b ≡ c → x +ℤ pos a +ℤ pos b ≡ x +ℤ pos c
    sums x a b c h = omega int_laws
