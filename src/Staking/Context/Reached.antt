-- ===== src/Staking/Context/Reached.antt =====
-- state/statecontext.go: the validators that the transactions of a block count, from NewStateContext on.
use zond.Prelude.{
  ℕ, ◌^◌, ◌<◌, ◌≡◌, ◌≢◌, refl, sym, ap, subst, ◌∙◌, Bool, true, false, Bool-cases, Option, none,
  some, List, [], ◌∷◌, bind, arith, inl, inr, ◌==◌, get_elem?, bind-some, some_inj, if◌then◌else◌,
}
use zond.Prelude.Int.{ℤ, pos, signed, ◌≤ℤ◌}
use zond.State.Account.{Hash}
use zond.Transactions.{Bytes}
use zond.Staking.{Config, Outcome, ok, error, unexpected_block_proposer, same_bytes}
use zond.Staking.Keys.{put_key_ne}
use zond.Staking.Epoch.{EpochMetaData, put_key, has_validator, slot_of}
use zond.Staking.Context.{
  StateContext, process_flag, process_attestors_flag, process_leader, process_block_proposer_flag,
  leader_of, assign_attestors, assigned_flags, new_state_context,
}
use zond.Staking.Context.Counted.{Counted, process_flag-Counted}

put_unset :
    (m : Bytes → Option Bool) (pk : Bytes)
    → ((k : Bytes) → m k ≢ some true)
    → (k : Bytes) → put_key m pk false k ≢ some true
put_unset m pk h k q = elim (Bool-cases (same_bytes k pk)) [
  | inl e ↦ apart (sym (ap (λ b. if b then some false else m k) e) ∙ q)
  | inr e ↦ h k (sym (put_key_ne m pk k false e) ∙ q)
]
  where
    apart : some false ≡ some true → ⊥
    apart e = cc

module _ (cfg : Config) where
  -- The calls that a block makes, each with the key and the stake balance
  pub data Call : Type 0 where
    propose : Bytes → ℤ → Call
    attest : Bytes → ℤ → Call

  abbrev pub process : Call → StateContext → Outcome StateContext
  process (propose pk x) s = process_block_proposer_flag cfg s pk x
  process (attest pk x) s = process_attestors_flag cfg s pk x

  abbrev pub key_of : Call → Bytes
  key_of (propose pk x) = pk
  key_of (attest pk x) = pk

  abbrev pub stake_of : Call → ℤ
  stake_of (propose pk x) = x
  stake_of (attest pk x) = x

  by_leader :
      (s s' : StateContext) (pk : Bytes) (x : ℤ) (leader : Option Bytes)
      → process_leader cfg s pk x leader ≡ ok s'
      → process_flag cfg s pk x (s.validators_flag pk) ≡ ok s'
  unfolding process_leader
  by_leader s s' pk x none e = cc
  by_leader s s' pk x (some leader) e = elim (Bool-cases (same_bytes leader pk)) [
    | inl same ↦
        sym (
          ap
            (λ b.
              if b
              then process_flag cfg s pk x (s.validators_flag pk)
              else error unexpected_block_proposer)
            same)
        ∙ e
    | inr other ↦ absurd (
        apart (
          sym (
            ap
              (λ b.
                if b
                then process_flag cfg s pk x (s.validators_flag pk)
                else error unexpected_block_proposer)
              other)
          ∙ e))
  ]
    where
      apart : error unexpected_block_proposer ≡ ok s' → ⊥
      apart h = cc

  not_genesis : (n : ℕ) {A : Type 0} (x y : A) → n ≢ 0 → (if n == 0 then x else y) ≡ y
  not_genesis n x y h = ground arith

  by_flag :
      (call : Call) (s s' : StateContext)
      → s.slot_number ≢ 0
      → process call s ≡ ok s'
      → process_flag cfg s (key_of call) (stake_of call) (s.validators_flag (key_of call)) ≡ ok s'
  unfolding process_block_proposer_flag process_attestors_flag
  by_flag (propose pk x) s s' n e =
      by_leader s s' pk x (leader_of cfg s)
        (sym (not_genesis s.slot_number (ok s) (process_leader cfg s pk x (leader_of cfg s)) n) ∙ e)
  by_flag (attest pk x) s s' n e =
      sym (not_genesis s.slot_number (ok s) (process_flag cfg s pk x (s.validators_flag pk)) n) ∙ e

  pub process-Counted :
      (call : Call) (s s' : StateContext) (keys : List Bytes)
      → cfg.stake_amount < 2 ^ 63
      → s.slot_number ≢ 0
      → Counted cfg s keys
      → process call s ≡ ok s'
      → Counted cfg s' (key_of call ∷ keys)
        × (signed cfg.stake_amount ≤ℤ stake_of call)
        × (s'.slot_number ≡ s.slot_number)
  process-Counted call s s' keys fits n v e =
      process_flag-Counted cfg s s' keys (key_of call) (stake_of call)
        (s.validators_flag (key_of call)) fits v refl (by_flag call s s' n e)

  -- Contexts that are reached from a start by calls that succeed, with the keys that were counted on the way
  pub data Reached (s : StateContext) : StateContext → List Bytes → Type 0 where
    start : Reached s s []
    call :
        (c : Call) (t u : StateContext) (keys : List Bytes)
        → Reached s t keys
        → process c t ≡ ok u
        → Reached s u (key_of c ∷ keys)

  unset :
      (validators : List Bytes) (indices : List ℕ) (m m' : Bytes → Option Bool)
      → ((k : Bytes) → m k ≢ some true)
      → assign_attestors cfg validators indices m ≡ some m'
      → (k : Bytes) → m' k ≢ some true
  unfolding assign_attestors
  unset validators [] m m' h e =
      λ k q. h k (ap (λ (f : Bytes → Option Bool). f k) (some_inj m m' e) ∙ q)
  unset validators (i ∷ rest) m m' h e =
      let (pk, x, e') = bind-some (get_elem? validators i) _ m' e in
      unset validators rest (put_key m pk false) m' (put_unset m pk h) e'

  assigned_unset :
      (slot_number : ℕ) (e : EpochMetaData) (m : Bytes → Option Bool)
      → assigned_flags cfg slot_number e ≡ some m
      → (k : Bytes) → m k ≢ some true
  unfolding assigned_flags
  assigned_unset slot_number e m h = elim (Bool-cases (slot_number == 0)) [
    | inl z ↦ λ k q. apart (
        ap (λ (f : Bytes → Option Bool). f k)
          (some_inj (λ j. none) m (sym (ap (λ b. if b then some (λ j. none) else other) z) ∙ h))
        ∙ q)
    | inr z ↦
        let (slot, x, h1) =
          bind-some (slot_of cfg e slot_number) _ m
            (sym (ap (λ b. if b then some (λ j. none) else other) z) ∙ h) in
        let (m1, y, h2) =
          bind-some (assign_attestors cfg e.validators slot.attestors (λ k. none)) _ m h1 in
        let (leader, w, h3) = bind-some (get_elem? e.validators slot.slot_leader) _ m h2 in
        let before = unset e.validators slot.attestors (λ k. none) m1 (λ k q. apart q) y in
        λ k q.
          put_unset m1 leader before k (ap (λ (f : Bytes → Option Bool). f k) (some_inj _ m h3) ∙ q)
  ]
    where
      apart : none ≡ some true → ⊥
      apart q = cc

      other : Option (Bytes → Option Bool)
      other = bind (slot_of cfg e slot_number) λ slot.
          bind (assign_attestors cfg e.validators slot.attestors (λ k. none)) λ m.
            bind (get_elem? e.validators slot.slot_leader) λ leader. some (put_key m leader false)

  new_state_context-Counted :
      (slot_number : ℕ) (g h : Hash) (e : EpochMetaData) (s : StateContext)
      → new_state_context cfg slot_number g h e ≡ some s
      → Counted cfg s [] × (s.slot_number ≡ slot_number)
  unfolding new_state_context has_validator
  new_state_context-Counted slot_number g h e s made =
      let (flags, x, made') = bind-some (assigned_flags cfg slot_number e) _ s made in
      let same = some_inj _ s made' in
      (
        subst (λ t. Counted cfg t []) same
            (record {
              flagged = λ k q. absurd (apart q);
              others = λ k q. absurd (assigned_unset slot_number e flags x k q);
              once = refl;
              stake = ap pos (omega arith);
            }),
        sym (ap (λ (t : StateContext). t.slot_number) same),
      )
    where
      apart : false ≡ true → ⊥
      apart q = cc

  -- In every context that NewStateContext makes for a slot other than 0 and calls of
  -- ProcessBlockProposerFlag and ProcessAttestorsFlag that succeed have led to, exactly the keys
  -- of these calls are flagged, none was processed twice, and the block's stake is the required
  -- amount, which is below 2^63, for each of them.
  pub Reached-Counted :
      (slot_number : ℕ) (g h : Hash) (e : EpochMetaData) (s t : StateContext) (keys : List Bytes)
      → cfg.stake_amount < 2 ^ 63
      → slot_number ≢ 0
      → new_state_context cfg slot_number g h e ≡ some s
      → Reached s t keys
      → Counted cfg t keys × (t.slot_number ≡ slot_number)
  Reached-Counted slot_number g h e s t keys fits n made start =
      new_state_context-Counted slot_number g h e s made
  Reached-Counted slot_number g h e s t keys fits n made (call c u t' before r done) =
      let (v, same) = Reached-Counted slot_number g h e s u before fits n made r in
      let (next, stake, slot) = process-Counted c u t before fits (λ z. n (sym same ∙ z)) v done in
      (next, slot ∙ same)
