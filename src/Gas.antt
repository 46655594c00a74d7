-- ===== src/Gas.antt =====
-- core/gaspool.go and the gas of core/state_transition.go. A uint64 wraps around at 2 ^ 64; an error is
-- a constructor of Fault, with the pool or the gas left as it was; a panic is `none`.
pub mod Intrinsic
pub mod Conserve
pub mod Check
use zond.Prelude.{
  ℕ, ◌+◌, ◌-◌, ◌*◌, ◌/◌, ◌%◌, ◌^◌, Bool, true, false, ◌&&◌, Option, none, some, List, [], ◌∷◌, ltb,
  ◌==◌, if◌then◌else◌, length,
}
use zond.Prelude.Int.{ℤ, pos, ltb_ℤ, ◌+ℤ◌, ◌-ℤ◌}

pub data Fault : Type 0 where
  gas_limit_reached : Fault
  gas_uint_overflow : Fault
  insufficient_funds : Fault

pub data Outcome {ℓ} (A : Type ℓ) : Type ℓ where
  ok : A → Outcome A
  error : Fault → Outcome A

-- GasPool.AddGas
unfoldable pub add_gas : ℕ → ℕ → Option ℕ
add_gas gp amount = if ltb (2 ^ 64 - 1 - amount) gp then none else some ((gp + amount) % 2 ^ 64)

-- GasPool.SubGas
unfoldable pub sub_gas : ℕ → ℕ → Outcome ℕ
sub_gas gp amount = if ltb gp amount then error gas_limit_reached else ok (gp - amount)

-- the number of bytes other than zero
unfoldable pub non_zero : List ℕ → ℕ
non_zero [] = 0
non_zero (b ∷ bs) = let rest = non_zero bs in if b == 0 then rest else (rest + 1) % 2 ^ 64

-- AccessList.StorageKeys, on the lists of keys
unfoldable pub storage_keys : List (ℕ × List ℕ) → ℕ
storage_keys [] = 0
storage_keys ((address, keys) ∷ al) = length keys + storage_keys al

-- the gas of the access list, if there is one
unfoldable pub access_list_gas : ℕ → Option (List (ℕ × List ℕ)) → ℕ
unfolding storage_keys
access_list_gas gas none = gas
access_list_gas gas (some al) =
    ((gas + length al * 2400 % 2 ^ 64) % 2 ^ 64 + storage_keys al * 1900 % 2 ^ 64) % 2 ^ 64

-- the gas of the zero bytes
unfoldable pub zero_gas : ℕ → ℕ → Outcome ℕ
zero_gas gas z =
    if ltb ((2 ^ 64 - 1 - gas) / 4) z then error gas_uint_overflow else ok ((gas + z * 4) % 2 ^ 64)

-- the gas of the data; `price` is that of a byte other than zero
unfoldable pub data_gas : ℕ → ℕ → List ℕ → Outcome ℕ
unfolding zero_gas non_zero
data_gas gas price [] = ok gas
data_gas gas price (b ∷ bs) =
    let nz = non_zero (b ∷ bs) in
    if ltb ((2 ^ 64 - 1 - gas) / price) nz
    then error gas_uint_overflow
    else zero_gas ((gas + nz * price) % 2 ^ 64) (length (b ∷ bs) - nz)

unfoldable pub with_access_list : Option (List (ℕ × List ℕ)) → Outcome ℕ → Outcome ℕ
unfolding access_list_gas
with_access_list al (error e) = error e
with_access_list al (ok gas) = ok (access_list_gas gas al)

-- IntrinsicGas
unfoldable pub intrinsic_gas :
    List ℕ
    → Option (List (ℕ × List ℕ))
    → (is_contract_creation : Bool) → (is_homestead : Bool) → (is_eip2028 : Bool) → Outcome ℕ
unfolding data_gas with_access_list
intrinsic_gas bytes al creation homestead eip2028 =
    with_access_list al
      (data_gas (if creation && homestead then 53000 else 21000) (if eip2028 then 16 else 68) bytes)

-- The gas of a state transition: what is left, what was bought, the block's pool, and the balance that the
-- sender has in the state
pub record Purse : Type 0 where
  pub gas : ℕ
  pub initial_gas : ℕ
  pub pool : ℕ
  pub balance : ℤ

-- What the message pays: the gas price, the fee cap if there is one, and the value. Prices and values are
-- natural numbers.
pub record Fees : Type 0 where
  pub gas_price : ℕ
  pub gas_fee_cap : Option ℕ
  pub value : ℕ

-- balanceCheck: what buyGas asks the sender to have
unfoldable pub balance_check : Fees → ℕ → ℕ
balance_check fees limit = elim fees.gas_fee_cap [
  | none ↦ limit * fees.gas_price
  | some cap ↦ limit * cap + fees.value
]

-- buyGas on the answer of SubGas
unfoldable pub bought : Purse → Fees → ℕ → Outcome ℕ → Outcome Purse
bought st fees limit (error e) = error e
bought st fees limit (ok left) = ok (record {
  gas = (st.gas + limit) % 2 ^ 64;
  initial_gas = limit;
  pool = left;
  balance = st.balance -ℤ pos (limit * fees.gas_price);
})

-- buyGas
unfoldable pub buy_gas : Purse → Fees → ℕ → Outcome Purse
unfolding sub_gas bought balance_check
buy_gas st fees limit =
    if ltb_ℤ st.balance (pos (balance_check fees limit))
    then error insufficient_funds
    else bought st fees limit (sub_gas st.pool limit)

unfoldable pub gas_used : Purse → ℕ
gas_used st = (st.initial_gas + 2 ^ 64 - st.gas) % 2 ^ 64

-- the capped refund
unfoldable pub capped_refund : Purse → ℕ → ℕ → ℕ
unfolding gas_used
capped_refund st counter quotient =
    if ltb counter (gas_used st / quotient) then counter else gas_used st / quotient

-- the purse after AddBalance and AddGas
unfoldable pub returned : Purse → Fees → ℕ → Option ℕ → Option Purse
returned st fees gas none = none
returned st fees gas (some pool) = some (record {
  gas = gas;
  initial_gas = st.initial_gas;
  pool = pool;
  balance = st.balance +ℤ pos (gas * fees.gas_price);
})

-- refundGas: the purse after it, with what was left given back to the sender and to the pool
unfoldable pub refund_gas : Purse → Fees → ℕ → ℕ → Option Purse
unfolding capped_refund add_gas returned
refund_gas st fees counter quotient =
    let gas = (st.gas + capped_refund st counter quotient) % 2 ^ 64 in
    returned st fees gas (add_gas st.pool gas)
