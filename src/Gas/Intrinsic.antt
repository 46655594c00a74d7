-- ===== src/Gas/Intrinsic.antt =====
-- core/state_transition.go, IntrinsicGas, without the wrap-around.
use zond.Prelude.{
  ℕ, ◌+◌, ◌-◌, ◌*◌, ◌/◌, ◌%◌, ◌^◌, ◌≤◌, ◌<◌, ◌≡◌, sym, ap, ◌∙◌, Bool, true, false, ◌&&◌, Option,
  List, [], ◌∷◌, ltb, ◌==◌, if◌then◌else◌, length, arith,
}
use zond.Gas.{
  Outcome, ok, error, gas_uint_overflow, non_zero, zero_gas, data_gas, intrinsic_gas,
  with_access_list,
}

-- The price of the data, by its bytes
pub data_price : ℕ → List ℕ → ℕ
data_price price [] = 0
data_price price (b ∷ bs) =
    let rest = data_price price bs in if b == 0 then 4 + rest else price + rest

non_zero_le : (bs : List ℕ) → length bs < 2 ^ 64 → non_zero bs ≤ length bs
unfolding non_zero
non_zero_le [] h = omega arith
non_zero_le (b ∷ bs) h = let rest = non_zero_le bs (omega arith) in ground arith

-- the price of a byte other than zero
abbrev price_of : Bool → ℕ
price_of eip2028 = if eip2028 then 16 else 68

data_price_split :
    (eip2028 : Bool) (bs : List ℕ)
    → length bs < 2 ^ 64
    → data_price (price_of eip2028) bs
      ≡ non_zero bs * price_of eip2028 + (length bs - non_zero bs) * 4
unfolding data_price non_zero
data_price_split true [] h = omega arith
data_price_split false [] h = omega arith
data_price_split true (b ∷ bs) h =
    let rest = data_price_split true bs (omega arith) in
    let le = non_zero_le bs (omega arith) in ground arith
data_price_split false (b ∷ bs) h =
    let rest = data_price_split false bs (omega arith) in
    let le = non_zero_le bs (omega arith) in ground arith

-- A total, or the error if it is not below 2 ^ 64
abbrev pub fits : ℕ → Outcome ℕ
fits total = if ltb total (2 ^ 64) then ok total else error gas_uint_overflow

data_gas_parts :
    (eip2028 : Bool) (gas nz z : ℕ)
    → gas < 2 ^ 64
    → (if ltb ((2 ^ 64 - 1 - gas) / price_of eip2028) nz
        then error gas_uint_overflow
        else zero_gas ((gas + nz * price_of eip2028) % 2 ^ 64) z)
      ≡ fits (gas + (nz * price_of eip2028 + z * 4))
unfolding zero_gas
data_gas_parts true gas nz z h = ground arith
data_gas_parts false gas nz z h = ground arith

data_gas_lem :
    (eip2028 : Bool) (gas : ℕ) (bs : List ℕ)
    → gas < 2 ^ 64
    → length bs < 2 ^ 64
    → data_gas gas (price_of eip2028) bs ≡ fits (gas + data_price (price_of eip2028) bs)
unfolding data_gas
data_gas_lem eip2028 gas [] h k = unfold data_price in ground arith
data_gas_lem eip2028 gas (b ∷ bs) h k =
    data_gas_parts eip2028 gas (non_zero (b ∷ bs)) (length (b ∷ bs) - non_zero (b ∷ bs)) h
    ∙ ap (λ n. fits (gas + n)) (sym (data_price_split eip2028 (b ∷ bs) k))

-- the start, and the price of the data
abbrev pub plain_price : List ℕ → Bool → Bool → Bool → ℕ
plain_price bytes creation homestead eip2028 =
    (if creation && homestead then 53000 else 21000) + data_price (price_of eip2028) bytes

-- On fewer than 2^64 bytes of data, IntrinsicGas without the access list is the sum of the base
-- price and the prices of the bytes, counted without wrap-around, where that sum fits in 64 bits,
-- and the overflow error exactly where it does not; the gas of an access list is then added to
-- it.
pub intrinsic_gas_lem :
    (bytes : List ℕ) (al : Option (List (ℕ × List ℕ))) (creation homestead eip2028 : Bool)
    → length bytes < 2 ^ 64
    → intrinsic_gas bytes al creation homestead eip2028
      ≡ with_access_list al (fits (plain_price bytes creation homestead eip2028))
unfolding intrinsic_gas
intrinsic_gas_lem bytes al creation homestead eip2028 h = ap (with_access_list al) (
    data_gas_lem eip2028 (if creation && homestead then 53000 else 21000) bytes
      (below (creation && homestead)) h)
  where
    below : (b : Bool) → (if b then 53000 else 21000) < 2 ^ 64
    below true = omega arith
    below false = omega arith
