-- ===== src/Tests/Fees.antt =====
-- core/gaspool.go and core/state_transition.go: the theorems at concrete amounts.
use zond.Prelude.{
  ℕ, ◌+◌, ◌-◌, ◌≤◌, ◌≡◌, ◌↔◌, true, false, Option, none, some, List, [], ◌∷◌, arith, ◌*◌, refl,
}
use zond.Prelude.Int.{pos, ◌+ℤ◌, ◌-ℤ◌}
use zond.Gas.{
  ok, error, insufficient_funds, Fees, balance_check, Purse, buy_gas, gas_used, refund_gas,
  intrinsic_gas, with_access_list,
}
use zond.Gas.Intrinsic.{fits, plain_price, intrinsic_gas_lem}
use zond.Gas.Check.{Checked, IsSender, IsPriced, needs_fees, pre_check, pre_check_lem}
use zond.Gas.Conserve.{gas_conserved, opened, executed, quotient_of}

abbrev fees : Fees
fees = record { gas_price = 2; gas_fee_cap = some 3; value = 7 }

gas_conserved_example :
    (buy_gas (opened 90000 (pos 200000)) fees 50000
      ≡ ok (executed 90000 50000 50000 (pos 200000 -ℤ pos (50000 * 2))))
    × (buy_gas (opened 90000 (pos 150000)) fees 50000 ≡ error insufficient_funds)
    × (st : Purse) × (refund_gas
          (executed 90000 50000 20000 (pos 100000))
          fees
          4800
          (quotient_of true)
        ≡ some st)
    × (st.pool + gas_used st ≡ 90000)
    × (gas_used st ≤ 50000 - 20000)
    × (50000 - 20000 ≤ gas_used st + 4800)
    × (st.balance +ℤ pos (gas_used st * 2) ≡ pos 100000 +ℤ pos (50000 * 2))
unfolding balance_check
gas_conserved_example =
    gas_conserved 90000 50000 20000 4800 true fees (pos 200000) (pos 150000) (pos 100000)
      (omega arith) (omega arith) (omega arith) (omega arith) refl

abbrev bytes : List ℕ
bytes = 0 ∷ 3 ∷ 0 ∷ 9 ∷ []

abbrev warmed : Option (List (ℕ × List ℕ))
warmed = some ((7, 1 ∷ 2 ∷ []) ∷ [])

intrinsic_gas_lem_example :
    intrinsic_gas bytes warmed false true true
    ≡ with_access_list warmed (fits (plain_price bytes false true true))
intrinsic_gas_lem_example = intrinsic_gas_lem bytes warmed false true true (omega arith)

-- A message whose sender and fees are in order
abbrev message : Checked
message = record {
  is_fake = false;
  msg_nonce = 3;
  gas_fee_cap = 40;
  gas_tip_cap = 2;
  st_nonce = 3;
  code_hash = 1;
  empty_code_hash = 1;
  is_london = true;
  no_base_fee = false;
  base_fee = 30;
}

pre_check_lem_example : (pre_check message ≡ none) ↔ (
    (message.is_fake ≡ false → IsSender message) × (needs_fees message ≡ true → IsPriced message))
pre_check_lem_example = pre_check_lem message (omega arith)
