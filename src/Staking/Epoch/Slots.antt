-- ===== src/Staking/Epoch/Slots.antt =====
-- metadata/epoch.go, AllotSlots: the slots of an epoch, slot by slot.
use zond.Prelude.{
  ℕ, zero, suc, ◌+◌, ◌-◌, ◌*◌, ◌%◌, ◌<◌, ◌≤◌, ◌≡◌, ◌≢◌, refl, sym, ap, subst, ◌∙◌, Bool, true,
  false, ◌&&◌, Bool-cases, Option, none, some, List, [], ◌∷◌, ◌++◌, ◌==◌, ltb, leb, if◌then◌else◌,
  get_elem?, set, replicate, length, bind, length-set, length-replicate, get_elem?-set_self,
  get_elem?-set_ne, lt→ltb, arith, inl, inr,
}
use Prim.Native.Nat.{min}
use native.Mathlib.Nat.{mul-add-mod_self_right, mod-eq_of_lt, div-add-mod', mod-lt}
use native.Mathlib.Decide.{ℕ_discrete}
use zond.State.Account.{Hash}
use zond.Transactions.{Bytes}
use zond.Staking.{Config}
use zond.Staking.Epoch.{
  SlotInfo, EpochMetaData, joined, join_slot, allot_round, allot_rounds, max_validators_per_slot,
  allot_slots,
}

-- The indices below `n` that fall on slot `j`, but for the leader's
abbrev pub attestors_of : ℕ → ℕ → ℕ → List ℕ
attestors_of blocks j zero = []
attestors_of blocks j (suc n) =
    let rest = attestors_of blocks j n in
    if n % blocks == j && leb blocks n then rest ++ n ∷ [] else rest

-- The slot when the first `n` validators have been allotted
abbrev pub slot_after : ℕ → ℕ → ℕ → Option SlotInfo
slot_after blocks j n =
    if ltb j n then some (record { slot_leader = j; attestors = attestors_of blocks j n }) else none

early : (blocks j n : ℕ) → n ≤ blocks → attestors_of blocks j n ≡ []
early blocks j zero h = refl
early blocks j (suc n) h =
    let rest = early blocks j n (omega arith) in
    let off : (n % blocks == j && leb blocks n) ≡ false = ground arith in
    ap (λ b. if b then attestors_of blocks j n ++ n ∷ [] else attestors_of blocks j n) off ∙ rest

-- The position that the loops reach with `i` and `j`
position : (blocks i j : ℕ) → j < blocks → (i * blocks + j) % blocks ≡ j
position blocks i j h = mul-add-mod_self_right i blocks j ∙ mod-eq_of_lt h

slot_some :
    (blocks j n : ℕ)
    → j < n
    → slot_after blocks j n ≡ some (record { slot_leader = j; attestors = attestors_of blocks j n })
slot_some blocks j n h =
    ap
      (λ b.
        if b then some (record { slot_leader = j; attestors = attestors_of blocks j n }) else none)
      (lt→ltb j n h)

attestors_other :
    (blocks n j : ℕ) → n % blocks ≢ j → attestors_of blocks j (suc n) ≡ attestors_of blocks j n
attestors_other blocks n j away =
    let off : (n % blocks == j && leb blocks n) ≡ false = ground arith in
    ap (λ b. if b then attestors_of blocks j n ++ n ∷ [] else attestors_of blocks j n) off

attestors_here :
    (blocks n j : ℕ)
    → n % blocks ≡ j
    → blocks ≤ n
    → attestors_of blocks j (suc n) ≡ attestors_of blocks j n ++ n ∷ []
attestors_here blocks n j same h =
    let on : (n % blocks == j && leb blocks n) ≡ true = ground arith in
    ap (λ b. if b then attestors_of blocks j n ++ n ∷ [] else attestors_of blocks j n) on

other_slot :
    (blocks n j : ℕ)
    → n % blocks ≢ j
    → j < blocks
    → slot_after blocks j (suc n) ≡ slot_after blocks j n
other_slot blocks n j away h =
    let apart : j ≢ n = λ e. away (sym (ap (λ x. x % blocks) e) ∙ mod-eq_of_lt h) in
    let test : ltb j (suc n) ≡ ltb j n = ground arith in
    ap (λ as'. if ltb j (suc n) then some (record { slot_leader = j; attestors = as' }) else none)
      (attestors_other blocks n j away)
    ∙ ap
        (λ b.
          if b
          then some (record { slot_leader = j; attestors = attestors_of blocks j n })
          else none)
        test

joined_later :
    (blocks i j n : ℕ)
    → n % blocks ≡ j
    → blocks ≤ n
    → j < n
    → joined (suc i) n (slot_after blocks j n) ≡ slot_after blocks j (suc n)
unfolding joined
joined_later blocks i j n same h k =
    ap (joined (suc i) n) (slot_some blocks j n k)
    ∙ ap (λ as'. some (record { slot_leader = j; attestors = as' }))
        (sym (attestors_here blocks n j same h))
    ∙ sym (slot_some blocks j (suc n) (omega arith))

later_round : (i blocks j : ℕ) → blocks ≤ suc i * blocks + j
later_round i blocks j = grind arith

join_lem :
    (blocks i j : ℕ)
    → j < blocks
    → joined i (i * blocks + j) (slot_after blocks j (i * blocks + j))
      ≡ slot_after blocks j (suc (i * blocks + j))
unfolding joined
join_lem blocks zero j h =
    let first : j ≡ 0 * blocks + j = omega arith in
    subst (λ n. joined 0 n (slot_after blocks j n) ≡ slot_after blocks j (suc n)) first
      (ap (λ as'. some (record { slot_leader = j; attestors = as' }))
          (sym (early blocks j (suc j) (omega arith)))
        ∙ sym (slot_some blocks j (suc j) (omega arith)))
join_lem blocks (suc i) j h =
    let far = later_round i blocks j in
    joined_later blocks i j (suc i * blocks + j) (position blocks (suc i) j h) far
      (omega (arith, far))

-- The slots when the first `n` validators have been allotted
record Allotted (blocks n : ℕ) (slots : List (Option SlotInfo)) : Type 0 where
  size : length slots ≡ blocks
  each : (j : ℕ) → j < blocks → get_elem? slots j ≡ some (slot_after blocks j n)

join_slot_lem :
    (blocks i j : ℕ) (slots : List (Option SlotInfo))
    → j < blocks
    → Allotted blocks (i * blocks + j) slots
    → (slots' : List (Option SlotInfo)) × (join_slot i j (i * blocks + j) slots ≡ some slots')
      × Allotted blocks (suc (i * blocks + j)) slots'
unfolding join_slot
join_slot_lem blocks i j slots h v =
    let n = i * blocks + j in
    let old = slot_after blocks j n in
    let made = join_lem blocks i j h in
    let new = slot_some blocks j (suc n) (omega arith) in
    let slot : SlotInfo = record { slot_leader = j; attestors = attestors_of blocks j (suc n) } in
    let slots' = set slots j (some slot) in
    (
      slots',
      ap (λ o. bind o (λ s. bind (joined i n s) (λ t. some (set slots j (some t))))) (v.each j h)
          ∙ ap (λ o. bind o (λ t. some (set slots j (some t)))) (made ∙ new),
      record {
        size = length-set slots j (some slot) ∙ v.size;
        each = λ k below. elim (ℕ_discrete k j) [
          | yes e ↦
              subst (λ x. get_elem? slots' x ≡ some (slot_after blocks x (suc n))) (sym e)
                (get_elem?-set_self slots j (some slot) (omega (arith, v.size)) ∙ ap some (sym new))
          | no away ↦
              get_elem?-set_ne slots j k (some slot) (λ e. away (sym e))
              ∙ v.each k below
              ∙ ap some
                  (sym (other_slot blocks n k (λ e. away (sym e ∙ position blocks i j h)) below))
        ];
      },
    )

module _ (blocks len : ℕ) where
  -- A result that stands, with the first `n` validators allotted
  abbrev Reaches : ℕ → Option (List (Option SlotInfo)) → Type 0
  Reaches n result =
      (slots : List (Option SlotInfo)) × (result ≡ some slots) × Allotted blocks n slots

  -- `n` of the validators, or all of them
  abbrev upto : ℕ → ℕ
  upto n = min len n

  go_on :
      (fuel i j : ℕ) (slots : List (Option SlotInfo)) (b : Bool)
      → (ltb j blocks && ltb (i * blocks + j) len) ≡ b
      → allot_round (suc fuel) blocks len i j slots ≡ (
          if b
          then bind (join_slot i j (i * blocks + j) slots) (allot_round fuel blocks len i (suc j))
          else some slots)
  unfolding allot_round
  go_on fuel i j slots b h =
      ap
        (λ x.
          if x
          then bind (join_slot i j (i * blocks + j) slots) (allot_round fuel blocks len i (suc j))
          else some slots)
        h

  allot_round_lem :
      (fuel i j : ℕ) (slots : List (Option SlotInfo))
      → j + fuel ≡ blocks
      → Allotted blocks (upto (i * blocks + j)) slots
      → Reaches (upto (i * blocks + blocks)) (allot_round fuel blocks len i j slots)
  unfolding allot_round
  allot_round_lem zero i j slots h v =
      (slots, refl, subst (λ x. Allotted blocks (upto (i * blocks + x)) slots) (omega arith) v)
  allot_round_lem (suc fuel) i j slots h v = elim (Bool-cases (ltb (i * blocks + j) len)) [
    | inl more ↦
        let here : upto (i * blocks + j) ≡ i * blocks + j = ground arith in
        let next : suc (i * blocks + j) ≡ upto (i * blocks + suc j) = ground arith in
        let (slots', e, w) =
          join_slot_lem blocks i j slots (omega arith)
            (subst (λ n. Allotted blocks n slots) here v) in
        let (last, e', w') =
          allot_round_lem fuel i (suc j) slots' (omega arith)
            (subst (λ n. Allotted blocks n slots') next w) in
        (
          last,
          go_on fuel i j slots true (ground arith)
              ∙ ap (λ o. bind o (allot_round fuel blocks len i (suc j))) e
              ∙ e',
          w',
        )
    | inr done ↦
        let all : upto (i * blocks + j) ≡ upto (i * blocks + blocks) = ground arith in
        (
          slots,
          go_on fuel i j slots false (ground arith),
          subst (λ n. Allotted blocks n slots) all v,
        )
  ]

  allot_rounds_lem :
      (rounds i : ℕ) (slots : List (Option SlotInfo))
      → Allotted blocks (upto (i * blocks)) slots
      → Reaches (upto ((i + rounds) * blocks)) (allot_rounds rounds blocks len i slots)
  unfolding allot_rounds
  allot_rounds_lem zero i slots v =
      (slots, refl, subst (λ x. Allotted blocks (upto (x * blocks)) slots) (omega arith) v)
  allot_rounds_lem (suc rounds) i slots v =
      let start : upto (i * blocks) ≡ upto (i * blocks + 0) = ap upto (omega arith) in
      let end : upto (i * blocks + blocks) ≡ upto (suc i * blocks) = ap upto (grind arith) in
      let (slots', e, w) =
        allot_round_lem blocks i 0 slots (omega arith)
          (subst (λ n. Allotted blocks n slots) start v) in
      let (last, e', w') =
        allot_rounds_lem rounds (suc i) slots' (subst (λ n. Allotted blocks n slots') end w) in
      let shift : upto ((suc i + rounds) * blocks) ≡ upto ((i + suc rounds) * blocks) =
        ap (λ x. upto (x * blocks)) (omega arith) in
      (
        last,
        ap (λ o. bind o (allot_rounds rounds blocks len (suc i))) e ∙ e',
        subst (λ n. Allotted blocks n last) shift w',
      )

get_elem?-replicate {ℓ} :
    {A : Type ℓ} (n j : ℕ) (a : A) → j < n → get_elem? (replicate n a) j ≡ some a
get_elem?-replicate zero j a h = absurd (omega arith)
get_elem?-replicate (suc n) zero a h = refl
get_elem?-replicate (suc n) (suc j) a h = get_elem?-replicate n j a (omega arith)

-- Enough rounds for all
enough_rounds : (len blocks : ℕ) → 0 < blocks → len ≤ max_validators_per_slot len blocks * blocks
unfolding max_validators_per_slot
enough_rounds len blocks h =
    let whole = div-add-mod' (len + (blocks - 1)) blocks in
    let small : (len + (blocks - 1)) % blocks < blocks = mod-lt (len + (blocks - 1)) h in
    omega (arith, whole, small)

-- With at least one slot and one validator AllotSlots does not panic, and slot j has a leader,
-- validator j, exactly if there are more than j validators, and as attestors the further
-- validators whose index leaves j modulo the number of slots, in their order.
pub allot_slots_lem :
    (cfg : Config) (shuffle : List Bytes → List Bytes) (e : EpochMetaData) (epoch : ℕ) (h : Hash)
    → 0 < cfg.blocks_per_epoch
    → 0 < length (shuffle e.validators)
    → (e' : EpochMetaData) × (allot_slots cfg shuffle e epoch h ≡ some e')
      × (e'.validators ≡ shuffle e.validators)
      × (length e'.slot_info ≡ cfg.blocks_per_epoch)
      × ((j : ℕ)
          → j < cfg.blocks_per_epoch
          → get_elem? e'.slot_info j
            ≡ some (slot_after cfg.blocks_per_epoch j (length (shuffle e.validators))))
unfolding allot_slots
allot_slots_lem cfg shuffle e epoch h some_slot some_validator =
    let blocks = cfg.blocks_per_epoch in
    let len = length (shuffle e.validators) in
    let empty : Allotted blocks (min len (0 * blocks)) (replicate blocks none) = record {
      size = length-replicate blocks none;
      each = λ j below.
          get_elem?-replicate blocks j none below
          ∙ ap some (nobody blocks j)
          ∙ ap (λ n. some (slot_after blocks j n)) (the_min len blocks);
    } in
    let (slots, done, v) =
      allot_rounds_lem blocks len (max_validators_per_slot len blocks) 0 (replicate blocks none)
        empty in
    let full : min len ((0 + max_validators_per_slot len blocks) * blocks) ≡ len =
      whole len blocks some_slot in
    let made : List (Option SlotInfo) → EpochMetaData = λ slots. record e {
      epoch = epoch;
      prev_slot_last_block_header_hash = h;
      validators = shuffle e.validators;
      slot_info = slots;
    } in
    let test : (len == 0) ≡ false = ground arith in
    (
      made slots,
      ap
            (λ b.
              if b
              then none
              else bind
                  (allot_rounds (max_validators_per_slot len blocks) blocks len 0
                    (replicate blocks none))
                  (λ s. some (made s)))
            test
          ∙ ap (λ o. bind o (λ s. some (made s))) done,
      refl,
      v.size,
      λ j below. v.each j below ∙ ap (λ n. some (slot_after blocks j n)) full,
    )
  where
    nobody : (blocks j : ℕ) → none ≡ slot_after blocks j 0
    nobody blocks j = ground arith

    the_min : (len blocks : ℕ) → 0 ≡ min len (0 * blocks)
    the_min len blocks = omega arith

    whole :
        (len blocks : ℕ)
        → 0 < blocks
        → min len ((0 + max_validators_per_slot len blocks) * blocks) ≡ len
    whole len blocks h =
        let enough = enough_rounds len blocks h in
        let same : (0 + max_validators_per_slot len blocks) * blocks
            ≡ max_validators_per_slot len blocks * blocks =
          ap (λ x. x * blocks) (omega arith) in
        ap (min len) same ∙ omega (arith, enough)
