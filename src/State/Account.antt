-- ===== src/State/Account.antt =====
-- core/state/state_object.go, and core/types/state_account.go. Addresses and hashes are the numbers
-- that their bytes stand for. The address hash of an object, its Keccak hash, is modelled by the
-- address itself. `fakeStorage`, which only a debugging call sets, the storage trie and the prefetcher
-- are left out.
use zond.Prelude.{
  ℕ, ◌/◌, ◌%◌, Bool, true, false, Option, none, some, List, [], ◌∷◌, ◌==◌, if◌then◌else◌, ◌&&◌,
  get_elem?, set, replicate,
}
use zond.Prelude.Int.{ℤ, pos, is_zero}
use zond.Prelude.Maps.{update}
use mathlib.Core.Option

abbrev pub Address : Type 0
Address = ℕ

abbrev pub Hash : Type 0
Hash = ℕ

abbrev pub Code : Type 0
Code = List ℕ

-- types.StateAccount as it is decoded; `none` is a nil pointer or slice.
pub record RawAccount : Type 0 where
  pub nonce : ℕ
  pub balance : Option ℤ
  pub stake_balance : Option ℤ
  pub pending_stake_balance : Option ℤ
  pub root : Hash
  pub code_hash : Option Hash
  pub ots_bitfield : List (List ℕ)

-- snapshot.Account, which has no stake balances; `none` is an empty slice.
pub record SnapAccount : Type 0 where
  pub snap_nonce : ℕ
  pub snap_balance : ℤ
  pub snap_root : Hash
  pub snap_code_hash : Option Hash
  pub snap_ots_bitfield : List (List ℕ)

-- The answer of the snapshot or of the account trie for one address.
pub data Read {ℓ} (A : Type ℓ) : Type ℓ where
  found : A → Read A
  missing : Read A
  failed : Read A

-- The committed state under the database: the snapshot if there is one, the account trie, the storage
-- slots (by address, storage root and key), the code store, Keccak256(nil), the root of the empty
-- trie and the size of the OTS bitfield of an address.
pub record Backend : Type 0 where
  pub snap : Option (Address → Read SnapAccount)
  pub account : Address → Read RawAccount
  pub slot : Address → Hash → Hash → Hash
  pub contract_code : Hash → Option Code
  pub empty_code_hash : Hash
  pub empty_root : Hash
  pub max_ots_size : Address → ℕ

-- The account of a live object: newObject has replaced each nil.
pub record Account : Type 0 where
  pub nonce : ℕ
  pub balance : ℤ
  pub stake_balance : ℤ
  pub pending_stake_balance : ℤ
  pub root : Hash
  pub code_hash : Hash
  pub ots_bitfield : List (List ℕ)

pub record StateObject : Type 0 where
  pub address : Address
  pub data_of : Account
  pub code : Option Code
  pub origin_storage : Hash → Option Hash
  pub pending_storage : Hash → Option Hash
  pub dirty_storage : Hash → Option Hash
  pub dirty_code : Bool
  pub suicided : Bool
  pub deleted : Bool

-- make(Storage)
abbrev pub no_storage : Hash → Option Hash
no_storage k = none

-- types.StateAccount{}
abbrev pub zero_account : RawAccount
zero_account = record {
  nonce = 0;
  balance = none;
  stake_balance = none;
  pending_stake_balance = none;
  root = 0;
  code_hash = none;
  ots_bitfield = [];
}

abbrev or_else {ℓ} : {A : Type ℓ} → Option A → A → A
or_else none d = d
or_else (some a) d = a

module _ (db : Backend) where
  unfoldable pub new_object : Address → RawAccount → StateObject
  new_object addr raw = record {
    address = addr;
    data_of = record {
      nonce = raw.nonce;
      balance = or_else raw.balance (pos 0);
      stake_balance = or_else raw.stake_balance (pos 0);
      pending_stake_balance = or_else raw.pending_stake_balance (pos 0);
      root = if raw.root == 0 then db.empty_root else raw.root;
      code_hash = or_else raw.code_hash db.empty_code_hash;
      ots_bitfield = raw.ots_bitfield;
    };
    code = none;
    origin_storage = no_storage;
    pending_storage = no_storage;
    dirty_storage = no_storage;
    dirty_code = false;
    suicided = false;
    deleted = false;
  }

  -- EIP161: nonce, balance and code are all empty
  unfoldable pub is_empty : StateObject → Bool
  is_empty o =
      o.data_of.nonce == 0 && is_zero o.data_of.balance && o.data_of.code_hash == db.empty_code_hash

  -- Code on the cached code and the hash
  unfoldable pub code_from : Option Code → Hash → Option Code
  code_from (some c) h = some c
  code_from none h = if h == db.empty_code_hash then none else db.contract_code h

  -- Code: the cached code, nil for the empty hash, or what the code store has
  unfoldable pub code_of : StateObject → Option Code
  unfolding code_from
  code_of o = code_from o.code o.data_of.code_hash

  -- The part of Code that stores what it loaded: s.code = code
  unfoldable pub load_code : StateObject → StateObject
  unfolding code_of
  load_code o = elim o.code [
    | some c ↦ o
    | none ↦ if o.data_of.code_hash == db.empty_code_hash then o else record o { code = code_of o }
  ]

  -- GetCommittedState. `destructed` says that a snapshot is in use and the account was destructed in
  -- this block.
  unfoldable pub get_committed_state : Bool → StateObject → Hash → Hash
  get_committed_state destructed o key = elim (o.pending_storage key) [
    | some v ↦ v
    | none ↦ elim (o.origin_storage key) [
      | some v ↦ v
      | none ↦ if destructed then 0 else db.slot o.address o.data_of.root key
    ]
  ]

  -- The part of GetCommittedState that caches what it read: s.originStorage[key] = value
  unfoldable pub cache_committed : Bool → StateObject → Hash → StateObject
  cache_committed destructed o key = elim (o.pending_storage key) [
    | some v ↦ o
    | none ↦ elim (o.origin_storage key) [
      | some v ↦ o
      | none ↦ if destructed then o else record o {
        origin_storage = update o.origin_storage key (some (db.slot o.address o.data_of.root key));
      }
    ]
  ]

  -- GetState: the dirty value, or the committed one
  unfoldable pub get_state : Bool → StateObject → Hash → Hash
  unfolding get_committed_state
  get_state destructed o key = elim (o.dirty_storage key) [
    | some v ↦ v
    | none ↦ get_committed_state destructed o key
  ]

  -- and the cache that it fills
  unfoldable pub cache_state : Bool → StateObject → Hash → StateObject
  unfolding cache_committed
  cache_state destructed o key = elim (o.dirty_storage key) [
    | some v ↦ o
    | none ↦ cache_committed destructed o key
  ]

  -- setOTSBitfield; `none` is an index out of range
  unfoldable pub set_ots_bitfield : StateObject → ℕ → Bool → Option StateObject
  set_ots_bitfield o ots_index reverting =
      let rows : List (List ℕ) = elim o.data_of.ots_bitfield [
        | [] ↦ replicate (db.max_ots_size o.address) (replicate 8 0)
        | r ∷ rs ↦ o.data_of.ots_bitfield
      ] in
      Option.map
        (λ row. record o {
          data_of = record o.data_of {
            ots_bitfield =
                set rows (ots_index / 8) (set row (ots_index % 8) (if reverting then 0 else 1));
          };
        })
        (get_elem? rows (ots_index / 8))

unfoldable pub set_balance : ℤ → StateObject → StateObject
set_balance amount o = record o { data_of = record o.data_of { balance = amount } }

unfoldable pub set_stake_balance : ℤ → StateObject → StateObject
set_stake_balance amount o = record o { data_of = record o.data_of { stake_balance = amount } }

unfoldable pub set_pending_stake_balance : ℤ → StateObject → StateObject
set_pending_stake_balance amount o = record o {
  data_of = record o.data_of { pending_stake_balance = amount };
}

unfoldable pub set_nonce : ℕ → StateObject → StateObject
set_nonce n o = record o { data_of = record o.data_of { nonce = n } }

unfoldable pub set_code : Hash → Option Code → StateObject → StateObject
set_code code_hash code o = record o {
  data_of = record o.data_of { code_hash = code_hash };
  code = code;
  dirty_code = true;
}

unfoldable pub set_state : Hash → Hash → StateObject → StateObject
set_state key value o = record o { dirty_storage = update o.dirty_storage key (some value) }
