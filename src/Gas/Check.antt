-- ===== src/Gas/Check.antt =====
-- core/state_transition.go, preCheck up to buyGas. The fee caps and the base fee are natural numbers; the
-- sender's nonce and code hash, and the rules of the block, are what the calls return.
use zond.Prelude.{
  ℕ, ◌+◌, ◌-◌, ◌%◌, ◌^◌, ◌≤◌, ◌<◌, ◌≡◌, ◌⊎◌, ◌↔◌, refl, Bool, true, false, not, ◌&&◌, ◌||◌, Option,
  none, some, ltb, leb, ◌==◌, if◌then◌else◌, arith,
}

pub data Refusal : Type 0 where
  nonce_too_high : Refusal
  nonce_too_low : Refusal
  nonce_max : Refusal
  sender_no_eoa : Refusal
  fee_cap_very_high : Refusal
  tip_very_high : Refusal
  tip_above_fee_cap : Refusal
  fee_cap_too_low : Refusal

-- What preCheck reads: of the message, of the sender's account, and of the block
pub record Checked : Type 0 where
  pub is_fake : Bool
  pub msg_nonce : ℕ
  pub gas_fee_cap : ℕ
  pub gas_tip_cap : ℕ
  pub st_nonce : ℕ
  pub code_hash : ℕ
  pub empty_code_hash : ℕ
  pub is_london : Bool
  pub no_base_fee : Bool
  pub base_fee : ℕ

-- the checks of a message that is not fake; `none` is no refusal
unfoldable pub check_sender : Checked → Option Refusal
check_sender c =
    if ltb c.st_nonce c.msg_nonce
    then some nonce_too_high
    else if ltb c.msg_nonce c.st_nonce
    then some nonce_too_low
    else if ltb ((c.st_nonce + 1) % 2 ^ 64) c.st_nonce
    then some nonce_max
    else if not (c.code_hash == c.empty_code_hash) && not (c.code_hash == 0)
    then some sender_no_eoa
    else none

-- the checks of the fees after London
unfoldable pub check_fees : Checked → Option Refusal
check_fees c =
    if leb (2 ^ 256) c.gas_fee_cap
    then some fee_cap_very_high
    else if leb (2 ^ 256) c.gas_tip_cap
    then some tip_very_high
    else if ltb c.gas_fee_cap c.gas_tip_cap
    then some tip_above_fee_cap
    else if ltb c.gas_fee_cap c.base_fee
    then some fee_cap_too_low
    else none

-- x.BitLen() > 0
abbrev has_bits : ℕ → Bool
has_bits x = not (x == 0)

unfoldable pub needs_fees : Checked → Bool
needs_fees c =
    c.is_london && (not c.no_base_fee || (has_bits c.gas_fee_cap || has_bits c.gas_tip_cap))

-- the first refusal of the two
unfoldable pub first_of : Option Refusal → Option Refusal → Option Refusal
first_of (some r) later = some r
first_of none later = later

unfoldable pub pre_check : Checked → Option Refusal
unfolding check_sender check_fees needs_fees first_of
pre_check c =
    first_of (if c.is_fake then none else check_sender c)
      (if needs_fees c then check_fees c else none)

-- What a sender's account must be
pub record IsSender (c : Checked) : Type 0 where
  pub nonce_eq : c.msg_nonce ≡ c.st_nonce
  pub nonce_lt : c.st_nonce < 2 ^ 64 - 1
  pub no_code : (c.code_hash ≡ c.empty_code_hash) ⊎ (c.code_hash ≡ 0)

-- What the fees must be
pub record IsPriced (c : Checked) : Type 0 where
  pub cap_lt : c.gas_fee_cap < 2 ^ 256
  pub tip_le : c.gas_tip_cap ≤ c.gas_fee_cap
  pub base_le : c.base_fee ≤ c.gas_fee_cap

check_sender-IsSender : (c : Checked) → c.st_nonce < 2 ^ 64 → check_sender c ≡ none → IsSender c
unfolding check_sender
check_sender-IsSender c n h = record {
  nonce_eq = ground arith;
  nonce_lt = ground arith;
  no_code = ground arith;
}

IsSender-check_sender : (c : Checked) → IsSender c → check_sender c ≡ none
unfolding check_sender
IsSender-check_sender c s =
    let e = s.nonce_eq in let lt = s.nonce_lt in let code = s.no_code in ground arith

check_fees-IsPriced : (c : Checked) → check_fees c ≡ none → IsPriced c
unfolding check_fees
check_fees-IsPriced c h = record {
  cap_lt = ground arith;
  tip_le = ground arith;
  base_le = ground arith;
}

IsPriced-check_fees : (c : Checked) → IsPriced c → check_fees c ≡ none
unfolding check_fees
IsPriced-check_fees c p =
    let cap = p.cap_lt in let tip = p.tip_le in let base = p.base_le in ground arith

by_flag : (b : Bool) (x : Option Refusal) → (if b then x else none) ≡ none → b ≡ true → x ≡ none
by_flag true x h e = h
by_flag false x h e = cc

by_flag_back :
    (b : Bool) (x : Option Refusal) → (b ≡ true → x ≡ none) → (if b then x else none) ≡ none
by_flag_back true x h = h refl
by_flag_back false x h = refl

by_fake : (b : Bool) (x : Option Refusal) → (if b then none else x) ≡ none → b ≡ false → x ≡ none
by_fake true x h e = cc
by_fake false x h e = h

by_fake_back :
    (b : Bool) (x : Option Refusal) → (b ≡ false → x ≡ none) → (if b then none else x) ≡ none
by_fake_back true x h = refl
by_fake_back false x h = h refl

first_none : (x y : Option Refusal) → first_of x y ≡ none → (x ≡ none) × (y ≡ none)
unfolding first_of
first_none none y h = (refl, h)
first_none (some r) y h = cc

first_both : (x y : Option Refusal) → x ≡ none → y ≡ none → first_of x y ≡ none
unfolding first_of
first_both none y h k = k
first_both (some r) y h k = cc

-- For a sender's nonce of 64 bits, preCheck passes on to buyGas exactly if the following holds.
-- Unless the message is fake, its nonce is the sender's, which is below the greatest 64-bit
-- number, and the sender has no code; and after London, unless the base fee is disabled and both
-- caps are zero, the fee cap is below 2^256 and at least the tip cap and the base fee.
pub pre_check_lem :
    (c : Checked)
    → c.st_nonce < 2 ^ 64
    → (pre_check c ≡ none) ↔ ((c.is_fake ≡ false → IsSender c) × (needs_fees c ≡ true → IsPriced c))
unfolding pre_check
pre_check_lem c n = (
  λ h.
      let (a, b) = first_none _ _ h in
      (
        λ e. check_sender-IsSender c n (by_fake c.is_fake _ a e),
        λ e. check_fees-IsPriced c (by_flag (needs_fees c) _ b e),
      ),
  λ (s, p).
      first_both _ _ (by_fake_back c.is_fake _ (λ e. IsSender-check_sender c (s e)))
        (by_flag_back (needs_fees c) _ (λ e. IsPriced-check_fees c (p e))),
)
