-- ===== src/Staking/Context/Counted.antt =====
-- state/statecontext.go: each validator of a slot is counted at most once, with the stake amount.
use zond.Prelude.{
  ℕ, suc, ◌+◌, ◌*◌, ◌^◌, ◌<◌, ◌≡◌, ◌⊎◌, refl, sym, ap, subst, ◌∙◌, Bool, true, false, Bool-cases,
  Option, none, some, List, ◌∷◌, length, arith, inl, inr, if◌then◌else◌,
}
use zond.Prelude.Int.{ℤ, pos, signed, signed_pos, ◌+ℤ◌, ◌≤ℤ◌, ltb_ℤ, int_laws}
use zond.Transactions.{Bytes}
use zond.Staking.{Config, Outcome, ok, error, panicked, insufficient_stake_balance, same_bytes}
use zond.Staking.Keys.{same_bytes_eq, put_key_self, put_key_ne, has_validator-cons, are_once}
use zond.Staking.Epoch.{put_key, has_validator}
use zond.Staking.Context.{StateContext, process_validator_stake_amount, set_flag, process_flag}

one_more : (n x : ℕ) → pos (n * x) +ℤ pos x ≡ pos (suc n * x)
one_more n x = ints (n * x) x ∙ ap pos (grind arith)
  where
    ints : (y x : ℕ) → pos y +ℤ pos x ≡ pos (y + x)
    ints y x = omega int_laws

module _ (cfg : Config) where
  -- The validators that were counted: each once, and no other is flagged.
  pub record Counted (s : StateContext) (keys : List Bytes) : Type 0 where
    pub flagged : (k : Bytes) → has_validator k keys ≡ true → s.validators_flag k ≡ some true
    pub others : (k : Bytes) → s.validators_flag k ≡ some true → has_validator k keys ≡ true
    pub once : are_once keys ≡ true
    pub stake : s.current_block_total_stake_amount ≡ pos (length keys * cfg.stake_amount)

  Counted-one_more :
      (s : StateContext) (keys : List Bytes) (pk : Bytes)
      → cfg.stake_amount < 2 ^ 63
      → Counted s keys
      → s.validators_flag pk ≡ some false
      → Counted
          (record s {
            current_block_total_stake_amount =
                s.current_block_total_stake_amount +ℤ signed cfg.stake_amount;
            validators_flag = put_key s.validators_flag pk true;
          })
          (pk ∷ keys)
  Counted-one_more s keys pk fits v fresh = record {
    flagged = λ k h. elim (Bool-cases (same_bytes k pk)) [
      | inl e ↦ rw (same_bytes_eq k pk e) (put_key_self s.validators_flag pk true)
      | inr e ↦
          put_key_ne s.validators_flag pk k true e
          ∙ v.flagged k (old k e ((has_validator-cons k pk keys).0 h))
    ];
    others = λ k h. elim (Bool-cases (same_bytes k pk)) [
      | inl e ↦ (has_validator-cons k pk keys).1 (inl e)
      | inr e ↦
          (has_validator-cons k pk keys).1
            (inr (v.others k (sym (put_key_ne s.validators_flag pk k true e) ∙ h)))
    ];
    once = elim (Bool-cases (has_validator pk keys)) [
      | inl e ↦ absurd (apart (sym (v.flagged pk e) ∙ fresh))
      | inr e ↦ rw (e, v.once) refl
    ];
    stake =
        ap (λ x. x +ℤ signed cfg.stake_amount) v.stake
        ∙ ap (λ x. pos (length keys * cfg.stake_amount) +ℤ x) (signed_pos cfg.stake_amount fits)
        ∙ one_more (length keys) cfg.stake_amount;
  }
    where
      old :
          (k : Bytes)
          → same_bytes k pk ≡ false
          → (same_bytes k pk ≡ true) ⊎ (has_validator k keys ≡ true)
          → has_validator k keys ≡ true
      old k e (inl h) = absurd (cc)
      old k e (inr h) = h

      apart : some true ≡ some false → ⊥
      apart e = cc

  value : StateContext → Outcome StateContext → StateContext
  value d (ok s) = s
  value d (error e) = d
  value d panicked = d

  -- the context after a validator is counted
  abbrev counting : StateContext → Bytes → StateContext
  counting s pk = record s {
    current_block_total_stake_amount =
        s.current_block_total_stake_amount +ℤ signed cfg.stake_amount;
    validators_flag = put_key s.validators_flag pk true;
  }

  passed :
      (s s' : StateContext) (pk : Bytes) (short : Bool)
      → set_flag cfg pk (
          if short
          then error insufficient_stake_balance
          else ok (record s {
            current_block_total_stake_amount =
                s.current_block_total_stake_amount +ℤ signed cfg.stake_amount;
          }))
        ≡ ok s'
      → (short ≡ false) × (counting s pk ≡ s')
  unfolding set_flag value
  passed s s' pk true e = cc
  passed s s' pk false e = (refl, ap (value s) e)

  -- A call that succeeds counts a validator that was not counted, and whose stake suffices.
  pub process_flag-Counted :
      (s s' : StateContext) (keys : List Bytes) (pk : Bytes) (x : ℤ) (flag : Option Bool)
      → cfg.stake_amount < 2 ^ 63
      → Counted s keys
      → s.validators_flag pk ≡ flag
      → process_flag cfg s pk x flag ≡ ok s'
      → Counted s' (pk ∷ keys) × (signed cfg.stake_amount ≤ℤ x) × (s'.slot_number ≡ s.slot_number)
  unfolding process_flag process_validator_stake_amount
  process_flag-Counted s s' keys pk x none fits v f e = cc
  process_flag-Counted s s' keys pk x (some true) fits v f e = cc
  process_flag-Counted s s' keys pk x (some false) fits v f e =
      let (long, same) = passed s s' pk (ltb_ℤ x (signed cfg.stake_amount)) e in
      (
        subst (λ t. Counted t (pk ∷ keys)) same (Counted-one_more s keys pk fits v f),
        enough (signed cfg.stake_amount) long,
        sym (ap (λ (t : StateContext). t.slot_number) same),
      )
    where
      enough : (y : ℤ) → ltb_ℤ x y ≡ false → y ≤ℤ x
      enough y h = ground arith
