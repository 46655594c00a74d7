-- ===== src/State/Read.antt =====
-- core/state/statedb.go: the getters. Each returns its answer and the database after it, since
-- getStateObject puts the account that it loads among the live objects, and the getters of code and
-- storage fill the object's caches.
use zond.Prelude.{ℕ, Bool, true, false, Option, none, some, List, [], ◌&&◌, length}
use zond.Prelude.Int.{ℤ, pos}
use zond.State.Account.{
  Address, Hash, Code, Backend, StateObject, is_empty, code_of, load_code, get_state,
  get_committed_state, cache_state, cache_committed,
}
use zond.State.AccessList.{contains_address, contains}
use zond.State.Db.{StateDb, has_snap, get_state_object, put_object}

-- The answer on an object, or the one where there is none
unfoldable pub value_or {ℓ} : {A : Type ℓ} → A → (StateObject → A) → Option StateObject → A
value_or absent f none = absent
value_or absent f (some o) = f o

-- The size of a code; a nil one has none
unfoldable pub code_size : Option Code → ℕ
code_size none = 0
code_size (some c) = length c

-- The write of an object's cache
unfoldable pub keep_cache :
    StateDb → Address → (StateObject → StateObject) → Option StateObject → StateDb
keep_cache t a f none = t
keep_cache t a f (some o) = put_object t a (f o)

module _ (db : Backend) (s : StateDb) (a : Address) where
  unfoldable pub exist : Bool × StateDb
  unfolding get_state_object value_or
  exist = let (o, t) = get_state_object db s a in (value_or false (λ o. true) o, t)

  unfoldable pub empty : Bool × StateDb
  unfolding get_state_object value_or
  empty = let (o, t) = get_state_object db s a in (value_or true (is_empty db) o, t)

  unfoldable pub get_balance : ℤ × StateDb
  unfolding get_state_object value_or
  get_balance =
      let (o, t) = get_state_object db s a in (value_or (pos 0) (λ o. o.data_of.balance) o, t)

  unfoldable pub get_stake_balance : ℤ × StateDb
  unfolding get_state_object value_or
  get_stake_balance =
      let (o, t) = get_state_object db s a in (value_or (pos 0) (λ o. o.data_of.stake_balance) o, t)

  unfoldable pub get_pending_stake_balance : ℤ × StateDb
  unfolding get_state_object value_or
  get_pending_stake_balance =
      let (o, t) = get_state_object db s a in
      (value_or (pos 0) (λ o. o.data_of.pending_stake_balance) o, t)

  unfoldable pub get_nonce : ℕ × StateDb
  unfolding get_state_object value_or
  get_nonce = let (o, t) = get_state_object db s a in (value_or 0 (λ o. o.data_of.nonce) o, t)

  unfoldable pub get_ots_bitfield : List (List ℕ) × StateDb
  unfolding get_state_object value_or
  get_ots_bitfield =
      let (o, t) = get_state_object db s a in (value_or [] (λ o. o.data_of.ots_bitfield) o, t)

  unfoldable pub get_code : Option Code × StateDb
  unfolding get_state_object value_or keep_cache
  get_code =
      let (o, t) = get_state_object db s a in
      (value_or none (code_of db) o, keep_cache t a (load_code db) o)

  -- CodeSize of the object caches nothing.
  unfoldable pub get_code_size : ℕ × StateDb
  unfolding get_state_object value_or code_size
  get_code_size =
      let (o, t) = get_state_object db s a in (value_or 0 (λ o. code_size (code_of db o)) o, t)

  unfoldable pub get_code_hash : Hash × StateDb
  unfolding get_state_object value_or
  get_code_hash =
      let (o, t) = get_state_object db s a in (value_or 0 (λ o. o.data_of.code_hash) o, t)

  unfoldable pub read_state : Hash → Hash × StateDb
  unfolding get_state_object value_or keep_cache
  read_state key =
      let (o, t) = get_state_object db s a in
      let destructed = has_snap db && t.snap_destructs a in
      (
        value_or 0 (λ o. get_state db destructed o key) o,
        keep_cache t a (λ o. cache_state db destructed o key) o,
      )

  unfoldable pub read_committed_state : Hash → Hash × StateDb
  unfolding get_state_object value_or keep_cache
  read_committed_state key =
      let (o, t) = get_state_object db s a in
      let destructed = has_snap db && t.snap_destructs a in
      (
        value_or 0 (λ o. get_committed_state db destructed o key) o,
        keep_cache t a (λ o. cache_committed db destructed o key) o,
      )

  unfoldable pub has_suicided : Bool × StateDb
  unfolding get_state_object value_or
  has_suicided = let (o, t) = get_state_object db s a in (value_or false (λ o. o.suicided) o, t)

unfoldable pub address_in_access_list : StateDb → Address → Bool
unfolding contains_address
address_in_access_list s a = contains_address s.access_list a

unfoldable pub slot_in_access_list : StateDb → Address → Hash → Option (Bool × Bool)
unfolding contains
slot_in_access_list s a slot = contains s.access_list a slot
