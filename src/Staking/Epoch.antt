-- ===== src/Staking/Epoch.antt =====
-- metadata/epoch.go and metadata/slotvalidators.go: the validators of an epoch, the slots that they are
-- allotted to, and the role of a validator in a slot. Serialisation and storage are left out. The
-- shuffle of math/rand is an argument, and the number of rounds, which the code computes with a
-- division of floats, is the exact one.
pub mod Slots
pub mod Validators
use zond.Prelude.{
  ℕ, zero, suc, ◌+◌, ◌-◌, ◌*◌, ◌/◌, ◌%◌, ◌^◌, Bool, true, false, ◌&&◌, Option, none, some, List, [],
  ◌∷◌, ◌++◌, ◌==◌, ltb, if◌then◌else◌, get_elem?, set, replicate, length, bind,
}
use zond.State.Account.{Hash}
use zond.Transactions.{Bytes}
use zond.Staking.{Config, same_bytes}

-- protos.SlotInfo: indices of validators
pub record SlotInfo : Type 0 where
  pub slot_leader : ℕ
  pub attestors : List ℕ

-- protos.EpochMetaData; a nil slot is `none`
pub record EpochMetaData : Type 0 where
  pub epoch : ℕ
  pub prev_slot_last_block_header_hash : Hash
  pub validators : List Bytes
  pub slot_info : List (Option SlotInfo)
  pub total_stake_amount_found : ℕ
  pub total_stake_amount_alloted : ℕ

-- the loop of AddValidators, whether the key is found
unfoldable pub has_validator : Bytes → List Bytes → Bool
has_validator pk [] = false
has_validator pk (v ∷ vs) = if same_bytes pk v then true else has_validator pk vs

unfoldable pub add_validators : EpochMetaData → Bytes → EpochMetaData
unfolding has_validator
add_validators e pk =
    if has_validator pk e.validators then e else record e { validators = e.validators ++ pk ∷ [] }

-- the loop of RemoveValidators, which removes the first that is equal
unfoldable pub without : Bytes → List Bytes → List Bytes
without pk [] = []
without pk (v ∷ vs) = if same_bytes pk v then vs else v ∷ without pk vs

unfoldable pub remove_validators : EpochMetaData → Bytes → EpochMetaData
unfolding without
remove_validators e pk = record e { validators = without pk e.validators }

unfoldable pub add_total_stake_amount_found : EpochMetaData → ℕ → EpochMetaData
add_total_stake_amount_found e amount = record e {
  total_stake_amount_found = (e.total_stake_amount_found + amount) % 2 ^ 64;
}

unfoldable pub update_prev_epoch_stake_data : EpochMetaData → ℕ → ℕ → EpochMetaData
update_prev_epoch_stake_data e found alloted = record e {
  total_stake_amount_found = found;
  total_stake_amount_alloted = alloted;
}

-- the write to a slot: its leader in the first round, an attestor in the others; a nil slot panics
unfoldable pub joined : ℕ → ℕ → Option SlotInfo → Option SlotInfo
joined zero k slot = some (record { slot_leader = k; attestors = [] })
joined (suc i) k none = none
joined (suc i) k (some slot) = some (record slot { attestors = slot.attestors ++ k ∷ [] })

-- e.pbData.SlotInfo[j] with the validator of index `k` joined
unfoldable pub join_slot : ℕ → ℕ → ℕ → List (Option SlotInfo) → Option (List (Option SlotInfo))
unfolding joined
join_slot i j k slots =
    bind (get_elem? slots j) λ slot. bind (joined i k slot) λ slot'. some (set slots j (some slot'))

-- the inner loop of AllotSlots from `j` on, at most `fuel` times
unfoldable pub allot_round :
    ℕ → ℕ → ℕ → ℕ → ℕ → List (Option SlotInfo) → Option (List (Option SlotInfo))
unfolding join_slot
allot_round zero blocks len i j slots = some slots
allot_round (suc fuel) blocks len i j slots =
    if ltb j blocks && ltb (i * blocks + j) len
    then bind (join_slot i j (i * blocks + j) slots) (allot_round fuel blocks len i (suc j))
    else some slots

-- the outer loop of AllotSlots: so many rounds, the first of them round `i`
unfoldable pub allot_rounds :
    ℕ → ℕ → ℕ → ℕ → List (Option SlotInfo) → Option (List (Option SlotInfo))
unfolding allot_round
allot_rounds zero blocks len i slots = some slots
allot_rounds (suc rounds) blocks len i slots =
    bind (allot_round blocks blocks len i 0 slots) (allot_rounds rounds blocks len (suc i))

-- ceil(len / blocks)
unfoldable pub max_validators_per_slot : ℕ → ℕ → ℕ
max_validators_per_slot len blocks = (len + (blocks - 1)) / blocks

-- AllotSlots; no validators, or no slots, panic
unfoldable pub allot_slots :
    Config → (List Bytes → List Bytes) → EpochMetaData → ℕ → Hash → Option EpochMetaData
unfolding allot_rounds max_validators_per_slot
allot_slots cfg shuffle e epoch hash =
    let validators = shuffle e.validators in
    let len = length validators in
    let blocks = cfg.blocks_per_epoch in
    if len == 0
    then none
    else bind
        (allot_rounds (max_validators_per_slot len blocks) blocks len 0 (replicate blocks none))
        λ slots. some (record e {
          epoch = epoch;
          prev_slot_last_block_header_hash = hash;
          validators = validators;
          slot_info = slots;
        })

-- SlotValidatorsMetaData; the type of a validator is 1 for the slot leader and 0 for an attestor
pub record SlotValidatorsMetaData : Type 0 where
  pub slot_number : ℕ
  pub slot_leader_pk : Bytes
  pub validators_type : Bytes → Option ℕ

-- m[k] = v
abbrev pub put_key {ℓ} : {A : Type ℓ} → (Bytes → Option A) → Bytes → A → Bytes → Option A
put_key m k v j = if same_bytes j k then some v else m j

-- validatorsType[hex of the validator's key] = 0, for each attestor
unfoldable pub mark_attestors : List Bytes → List ℕ → (Bytes → Option ℕ) → Option (Bytes → Option ℕ)
mark_attestors validators [] m = some m
mark_attestors validators (i ∷ is) m =
    bind (get_elem? validators i) λ pk. mark_attestors validators is (put_key m pk 0)

-- the slot of a slot number; an index out of range and a nil slot panic
unfoldable pub slot_of : Config → EpochMetaData → ℕ → Option SlotInfo
slot_of cfg e slot_number =
    bind (get_elem? e.slot_info (slot_number % cfg.blocks_per_epoch)) λ slot. slot

unfoldable pub new_slot_validators_meta_data :
    Config → ℕ → EpochMetaData → Option SlotValidatorsMetaData
unfolding slot_of mark_attestors
new_slot_validators_meta_data cfg slot_number e = bind (slot_of cfg e slot_number) λ slot.
    bind (get_elem? e.validators slot.slot_leader) λ leader.
      bind (mark_attestors e.validators slot.attestors (put_key (λ k. none) leader 1)) λ types.
        some
          (record { slot_number = slot_number; slot_leader_pk = leader; validators_type = types })

-- found && value == v
unfoldable pub is_type : ℕ → Option ℕ → Bool
is_type v none = false
is_type v (some value) = value == v

unfoldable pub is_attestor : SlotValidatorsMetaData → Bytes → Bool
unfolding is_type
is_attestor m pk = is_type 0 (m.validators_type pk)

unfoldable pub is_slot_leader : SlotValidatorsMetaData → Bytes → Bool
unfolding is_type
is_slot_leader m pk = is_type 1 (m.validators_type pk)
