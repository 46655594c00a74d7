-- ===== src/State/Ops.antt =====
-- core/state/statedb.go and state_object.go: the operations that the processing of a transaction
-- calls. `get_or_new_state_object` returns the address's object, put among the live ones.
use zond.Prelude.{
  ℕ, ◌+◌, ◌-◌, ◌%◌, ◌^◌, Bool, true, false, Option, none, some, List, [], ◌∷◌, ◌++◌, ◌==◌, ltb,
  ◌&&◌, if◌then◌else◌, bind,
}
use zond.Prelude.Int.{ℤ, pos, is_zero, ◌+ℤ◌, ◌-ℤ◌}
use zond.Prelude.Maps.{update}
use zond.State.Account.{
  Address, Hash, Code, Backend, StateObject, zero_account, new_object, is_empty, code_of, load_code,
  get_state, cache_state, set_balance, set_stake_balance, set_pending_stake_balance, set_nonce,
  set_code, set_state, set_ots_bitfield,
}
use zond.State.AccessList.{AccessList, new_access_list, add_address, add_slot}
use zond.State.Db.{
  Log, Entry, create_object_change, reset_object_change, suicide_change, balance_change,
  stake_balance_change, pending_stake_balance_change, nonce_change, ots_bitfield_change,
  storage_change, code_change, refund_change, add_log_change, add_preimage_change, touch_change,
  access_list_add_account_change, access_list_add_slot_change, StateDb, mark, append, put_object,
  set_state_object, has_snap, get_deleted_state_object, get_state_object, live,
}
use mathlib.Core.Option

-- the address for which a touch is kept when the journal is reverted
abbrev pub ripemd : Address
ripemd = 3

-- stateObject.touch
unfoldable pub touch : StateDb → Address → StateDb
unfolding append
touch s a =
    let t = append s (touch_change a) in
    if a == ripemd then record t { dirties = update t.dirties a (t.dirties a + 1) } else t

-- A setter of the object: the journal entry, then the write.
unfoldable pub journaled : StateDb → Address → Entry → StateObject → StateDb
unfolding append
journaled s a e o = put_object (append s e) a o

module _ (db : Backend) where
  -- createObject on the previous object of the address
  unfoldable pub create_over : StateDb → Address → Option StateObject → StateDb
  unfolding append set_state_object mark
  create_over s a none =
      set_state_object (append s (create_object_change a)) (new_object db a zero_account)
  create_over s a (some prev) =
      let prevdestruct = has_snap db && s.snap_destructs prev.address in
      let t = record s { snap_destructs = mark (has_snap db) s.snap_destructs prev.address } in
      set_state_object (append t (reset_object_change prev prevdestruct))
        (new_object db a zero_account)

  -- createObject: the database with the new object, and the previous one unless it was deleted
  unfoldable pub create_object : StateDb → Address → StateDb × Option StateObject
  unfolding create_over get_deleted_state_object live
  create_object s a =
      let (prev, t) = get_deleted_state_object db s a in (create_over t a prev, live db prev)

  -- GetOrNewStateObject on the answer of getStateObject
  unfoldable pub obtain : StateDb → Address → Option StateObject → StateObject × StateDb
  unfolding create_object
  obtain t a none = (new_object db a zero_account, (create_object t a).0)
  obtain t a (some o) = (o, t)

  unfoldable pub get_or_new_state_object : StateDb → Address → StateObject × StateDb
  unfolding obtain get_state_object
  get_or_new_state_object s a = let (o, t) = get_state_object db s a in obtain t a o

  -- stateObject.SetBalance
  abbrev pub object_set_balance : StateDb → Address → StateObject → ℤ → StateDb
  object_set_balance t a o amount =
      journaled t a (balance_change a o.data_of.balance) (set_balance amount o)

  unfoldable pub set_balance_op : StateDb → Address → ℤ → StateDb
  unfolding get_or_new_state_object journaled
  set_balance_op s a amount =
      let (o, t) = get_or_new_state_object s a in object_set_balance t a o amount

  -- stateObject.AddBalance
  abbrev pub object_add_balance : StateDb → Address → StateObject → ℤ → StateDb
  object_add_balance t a o amount =
      if is_zero amount
      then if is_empty db o then touch t a else t
      else object_set_balance t a o (o.data_of.balance +ℤ amount)

  unfoldable pub add_balance : StateDb → Address → ℤ → StateDb
  unfolding get_or_new_state_object journaled touch
  add_balance s a amount =
      let (o, t) = get_or_new_state_object s a in object_add_balance t a o amount

  -- stateObject.SubBalance
  abbrev pub object_sub_balance : StateDb → Address → StateObject → ℤ → StateDb
  object_sub_balance t a o amount =
      if is_zero amount then t else object_set_balance t a o (o.data_of.balance -ℤ amount)

  unfoldable pub sub_balance : StateDb → Address → ℤ → StateDb
  unfolding get_or_new_state_object journaled
  sub_balance s a amount =
      let (o, t) = get_or_new_state_object s a in object_sub_balance t a o amount

  -- stateObject.SetStakeBalance
  abbrev pub object_set_stake_balance : StateDb → Address → StateObject → ℤ → StateDb
  object_set_stake_balance t a o amount =
      journaled t a (stake_balance_change a o.data_of.stake_balance) (set_stake_balance amount o)

  unfoldable pub set_stake_balance_op : StateDb → Address → ℤ → StateDb
  unfolding get_or_new_state_object journaled
  set_stake_balance_op s a amount =
      let (o, t) = get_or_new_state_object s a in object_set_stake_balance t a o amount

  -- stateObject.SetPendingStakeBalance
  abbrev pub object_set_pending_stake_balance : StateDb → Address → StateObject → ℤ → StateDb
  object_set_pending_stake_balance t a o amount =
      journaled t a (pending_stake_balance_change a o.data_of.pending_stake_balance)
        (set_pending_stake_balance amount o)

  unfoldable pub set_pending_stake_balance_op : StateDb → Address → ℤ → StateDb
  unfolding get_or_new_state_object journaled
  set_pending_stake_balance_op s a amount =
      let (o, t) = get_or_new_state_object s a in object_set_pending_stake_balance t a o amount

  -- stateObject.SetNonce
  abbrev pub object_set_nonce : StateDb → Address → StateObject → ℕ → StateDb
  object_set_nonce t a o n = journaled t a (nonce_change a o.data_of.nonce) (set_nonce n o)

  unfoldable pub set_nonce_op : StateDb → Address → ℕ → StateDb
  unfolding get_or_new_state_object journaled
  set_nonce_op s a n = let (o, t) = get_or_new_state_object s a in object_set_nonce t a o n

  -- stateObject.SetOTSBitfield
  abbrev pub object_set_ots_bitfield : StateDb → Address → StateObject → ℕ → Bool → Option StateDb
  object_set_ots_bitfield t a o i reverting =
      Option.map (journaled t a (ots_bitfield_change a i)) (set_ots_bitfield db o i reverting)

  unfoldable pub set_ots_bitfield_op : StateDb → Address → ℕ → Bool → Option StateDb
  unfolding get_or_new_state_object journaled
  set_ots_bitfield_op s a i reverting =
      let (o, t) = get_or_new_state_object s a in object_set_ots_bitfield t a o i reverting

  -- stateObject.SetCode
  abbrev pub object_set_code : StateDb → Address → StateObject → Hash → Code → StateDb
  object_set_code t a o hash code =
      journaled t a (code_change a (code_of db o) o.data_of.code_hash)
        (set_code hash (some code) (load_code db o))

  -- SetCode with the Keccak hash of the code
  unfoldable pub set_code_op : StateDb → Address → Hash → Code → StateDb
  unfolding get_or_new_state_object journaled load_code
  set_code_op s a hash code =
      let (o, t) = get_or_new_state_object s a in object_set_code t a o hash code

  -- stateObject.SetState
  abbrev pub object_set_state : StateDb → Address → StateObject → Hash → Hash → StateDb
  object_set_state t a o key value =
      let destructed = has_snap db && t.snap_destructs a in
      let prev = get_state db destructed o key in
      let o' = cache_state db destructed o key in
      if prev == value
      then put_object t a o'
      else journaled t a (storage_change a key prev) (set_state key value o')

  unfoldable pub set_state_op : StateDb → Address → Hash → Hash → StateDb
  unfolding get_or_new_state_object journaled get_state cache_state
  set_state_op s a key value =
      let (o, t) = get_or_new_state_object s a in object_set_state t a o key value

  -- Suicide on the answer of getStateObject
  unfoldable pub suicide_of : StateDb → Address → Option StateObject → StateDb × Bool
  unfolding journaled
  suicide_of t a none = (t, false)
  suicide_of t a (some o) = (
    journaled t a (suicide_change a o.suicided o.data_of.balance)
        (set_balance (pos 0) (record o { suicided = true })),
    true,
  )

  unfoldable pub suicide : StateDb → Address → StateDb × Bool
  unfolding get_state_object suicide_of
  suicide s a =
      let (o, t) = get_state_object db s a in
      elim o [
        | none ↦ (t, false)
        | some o ↦ (
          journaled t a (suicide_change a o.suicided o.data_of.balance)
              (set_balance (pos 0) (record o { suicided = true })),
          true,
        )
      ]

  -- the balance of the previous object is carried over
  unfoldable pub carry_balance : StateDb → Address → Option StateObject → StateDb
  carry_balance t a none = t
  carry_balance t a (some p) =
      put_object t a (set_balance p.data_of.balance (new_object db a zero_account))

  unfoldable pub create_account : StateDb → Address → StateDb
  unfolding create_object carry_balance
  create_account s a = let (t, prev) = create_object s a in carry_balance t a prev

unfoldable pub add_refund : StateDb → ℕ → StateDb
unfolding append
add_refund s gas =
    let t = append s (refund_change s.refund) in record t { refund = (s.refund + gas) % 2 ^ 64 }

-- a counter below zero panics
unfoldable pub sub_refund : StateDb → ℕ → Option StateDb
unfolding append
sub_refund s gas =
    let t = append s (refund_change s.refund) in
    if ltb s.refund gas then none else some (record t { refund = s.refund - gas })

unfoldable pub add_log : StateDb → List ℕ → StateDb
unfolding append
add_log s body =
    let t = append s (add_log_change s.thash) in
    let log : Log = record {
      body = body;
      tx_hash = s.thash;
      tx_index = s.tx_index;
      index = s.log_size;
    } in
    record t {
      logs = update s.logs s.thash (s.logs s.thash ++ log ∷ []);
      log_size = (s.log_size + 1) % 2 ^ 64;
    }

unfoldable pub add_preimage : StateDb → Hash → List ℕ → StateDb
unfolding append
add_preimage s h preimage = elim (s.preimages h) [
  | some p ↦ s
  | none ↦
      let t = append s (add_preimage_change h) in
      record t { preimages = update s.preimages h (some preimage) }
]

unfoldable pub add_address_to_access_list : StateDb → Address → StateDb
unfolding append add_address
add_address_to_access_list s a =
    let (al, changed) = add_address s.access_list a in
    let t = record s { access_list = al } in
    if changed then append t (access_list_add_account_change a) else t

-- the entry for the address comes before the one for the slot
unfoldable pub add_slot_to_access_list : StateDb → Address → Hash → Option StateDb
unfolding append add_slot
add_slot_to_access_list s a slot =
    Option.map
      (λ (r : AccessList × Bool × Bool).
        let t = record s { access_list = r.0 } in
        let t' = if r.1 then append t (access_list_add_account_change a) else t in
        if r.2 then append t' (access_list_add_slot_change a slot) else t')
      (add_slot s.access_list a slot)

-- Prepare
unfoldable pub prepare : StateDb → Hash → ℕ → StateDb
prepare s thash tx_index = record s { thash = thash; tx_index = tx_index }

-- the loops of PrepareAccessList
unfoldable pub add_addresses : StateDb → List Address → StateDb
unfolding add_address_to_access_list
add_addresses s [] = s
add_addresses s (a ∷ rest) = add_addresses (add_address_to_access_list s a) rest

unfoldable pub add_slots : StateDb → Address → List Hash → Option StateDb
unfolding add_slot_to_access_list
add_slots s a [] = some s
add_slots s a (k ∷ ks) = bind (add_slot_to_access_list s a k) (λ t. add_slots t a ks)

unfoldable pub add_tuples : StateDb → List (Address × List Hash) → Option StateDb
unfolding add_slots
add_tuples s [] = some s
add_tuples s ((a, ks) ∷ al) =
    bind (add_slots (add_address_to_access_list s a) a ks) (λ t. add_tuples t al)

-- *dst, if it is not nil
abbrev pub as_list : Option Address → List Address
as_list none = []
as_list (some a) = a ∷ []

unfoldable pub prepare_access_list :
    StateDb → Address → Option Address → List Address → List (Address × List Hash) → Option StateDb
unfolding add_addresses add_tuples
prepare_access_list s sender dst precompiles al =
    let t = add_address_to_access_list (record s { access_list = new_access_list }) sender in
    add_tuples (add_addresses (add_addresses t (as_list dst)) precompiles) al
