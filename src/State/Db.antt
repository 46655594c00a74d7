-- ===== src/State/Db.antt =====
-- core/state/statedb.go and journal.go: the database, the accounts it reads, and the journal. A Go
-- panic (a nil object, an index out of range) is `none`. The trie, the snapshot tree's pending
-- writes, the prefetcher and the metrics are left out.
use zond.Prelude.{
  ℕ, ◌+◌, ◌-◌, ◌%◌, ◌^◌, Bool, true, false, not, Option, none, some, List, [], ◌∷◌, ◌++◌, ◌==◌,
  ◌&&◌, if◌then◌else◌, take, drop, length, leb, bind,
}
use zond.Prelude.Int.{ℤ}
use zond.Prelude.Maps.{update}
use zond.State.Account.{
  Address, Hash, Code, RawAccount, SnapAccount, Read, found, missing, failed, Backend, StateObject,
  new_object, set_balance, set_stake_balance, set_pending_stake_balance, set_nonce, set_code,
  set_state, set_ots_bitfield,
}
use zond.State.AccessList.{AccessList, delete_slot, delete_address}
use mathlib.Core.Option

-- types.Log: what the database fills in, and the rest
pub record Log : Type 0 where
  pub body : List ℕ
  pub tx_hash : Hash
  pub tx_index : ℕ
  pub index : ℕ

pub data Entry : Type 0 where
  create_object_change : Address → Entry
  reset_object_change : StateObject → Bool → Entry
  suicide_change : Address → Bool → ℤ → Entry
  balance_change : Address → ℤ → Entry
  stake_balance_change : Address → ℤ → Entry
  pending_stake_balance_change : Address → ℤ → Entry
  nonce_change : Address → ℕ → Entry
  ots_bitfield_change : Address → ℕ → Entry
  storage_change : Address → Hash → Hash → Entry
  code_change : Address → Option Code → Hash → Entry
  refund_change : ℕ → Entry
  add_log_change : Hash → Entry
  add_preimage_change : Hash → Entry
  touch_change : Address → Entry
  access_list_add_account_change : Address → Entry
  access_list_add_slot_change : Address → Hash → Entry

-- `snap_destructs` and the object maps are keyed by address. `entries` and `dirties` are the journal's
-- fields; `valid_revisions` holds each revision's id and journal index.
pub record StateDb : Type 0 where
  pub objects : Address → Option StateObject
  pub objects_dirty : Address → Bool
  pub objects_pending : Address → Bool
  pub snap_destructs : Address → Bool
  pub db_err : Bool
  pub refund : ℕ
  pub thash : Hash
  pub tx_index : ℕ
  pub logs : Hash → List Log
  pub log_size : ℕ
  pub preimages : Hash → Option (List ℕ)
  pub access_list : AccessList
  pub entries : List Entry
  pub dirties : Address → ℕ
  pub valid_revisions : List (ℕ × ℕ)
  pub next_revision_id : ℕ

unfoldable pub dirtied : Entry → Option Address
dirtied (create_object_change a) = some a
dirtied (reset_object_change prev prevdestruct) = none
dirtied (suicide_change a prev prevbalance) = some a
dirtied (balance_change a prev) = some a
dirtied (stake_balance_change a prev) = some a
dirtied (pending_stake_balance_change a prev) = some a
dirtied (nonce_change a prev) = some a
dirtied (ots_bitfield_change a i) = some a
dirtied (storage_change a key prev) = some a
dirtied (code_change a prevcode prevhash) = some a
dirtied (refund_change prev) = none
dirtied (add_log_change h) = none
dirtied (add_preimage_change h) = none
dirtied (touch_change a) = some a
dirtied (access_list_add_account_change a) = none
dirtied (access_list_add_slot_change a slot) = none

-- j.dirties[addr]++ for the address that the entry dirties
unfoldable pub add_dirty : Option Address → (Address → ℕ) → Address → ℕ
add_dirty none d = d
add_dirty (some a) d = update d a (d a + 1)

-- j.dirties[addr]--, which deletes the key at 0
unfoldable pub drop_dirty : Option Address → (Address → ℕ) → Address → ℕ
drop_dirty none d = d
drop_dirty (some a) d = update d a (d a - 1)

-- journal.append
unfoldable pub append : StateDb → Entry → StateDb
unfolding dirtied add_dirty
append s e = record s { entries = s.entries ++ e ∷ []; dirties = add_dirty (dirtied e) s.dirties }

abbrev pub put_object : StateDb → Address → StateObject → StateDb
put_object s a o = record s { objects = update s.objects a (some o) }

unfoldable pub set_state_object : StateDb → StateObject → StateDb
set_state_object s o = put_object s o.address o

-- The account that getDeletedStateObject builds from the snapshot's; it has no stake balances.
abbrev from_snapshot : Backend → SnapAccount → RawAccount
from_snapshot db acc = record {
  nonce = acc.snap_nonce;
  balance = some acc.snap_balance;
  stake_balance = none;
  pending_stake_balance = none;
  root = if acc.snap_root == 0 then db.empty_root else acc.snap_root;
  code_hash = elim acc.snap_code_hash [ none ↦ some db.empty_code_hash | some h ↦ some h ];
  ots_bitfield = acc.snap_ots_bitfield;
}

-- The snapshot is asked first; where it fails, or there is none, the account trie.
unfoldable pub read_account : Backend → Address → Read RawAccount
read_account db a = elim db.snap [
  | none ↦ db.account a
  | some snapshot ↦ elim (snapshot a) [
    | found acc ↦ found (from_snapshot db acc)
    | missing ↦ missing
    | failed ↦ db.account a
  ]
]

-- s.snapDestructs[addrHash] = struct{}{}, if a snapshot is in use
unfoldable pub mark : Bool → (Address → Bool) → Address → Address → Bool
mark true d a = update d a true
mark false d a = d

-- delete(s.snapDestructs, addrHash), under its test
unfoldable pub unmark : Bool → (Address → Bool) → Address → Address → Bool
unmark true d a = update d a false
unmark false d a = d

module _ (db : Backend) where
  -- s.snap != nil
  abbrev pub has_snap : Bool
  has_snap = elim db.snap [ none ↦ false | some snapshot ↦ true ]

  unfoldable pub load_object : StateDb → Address → Read RawAccount → Option StateObject × StateDb
  unfolding set_state_object
  load_object s a (found raw) =
      (some (new_object db a raw), set_state_object s (new_object db a raw))
  load_object s a missing = (none, s)
  load_object s a failed = (none, record s { db_err = true })

  unfoldable pub get_deleted_state_object : StateDb → Address → Option StateObject × StateDb
  unfolding load_object read_account
  get_deleted_state_object s a = elim (s.objects a) [
    | some o ↦ (some o, s)
    | none ↦ load_object s a (read_account db a)
  ]

  -- obj != nil && !obj.deleted
  unfoldable pub live : Option StateObject → Option StateObject
  live none = none
  live (some o) = if o.deleted then none else some o

  unfoldable pub get_state_object : StateDb → Address → Option StateObject × StateDb
  unfolding live get_deleted_state_object
  get_state_object s a = let (o, t) = get_deleted_state_object s a in (live o, t)

  -- s.getStateObject(addr).set…(…), which panics on a nil object
  unfoldable pub on_object : StateDb → Address → (StateObject → StateObject) → Option StateDb
  unfolding get_state_object
  on_object s a f = let (o, t) = get_state_object s a in Option.map (λ o. put_object t a (f o)) o

  -- the same, but a nil object is passed over
  unfoldable pub put_if :
      StateDb → Address → (StateObject → StateObject) → Option StateObject → StateDb
  put_if t a f none = t
  put_if t a f (some o) = put_object t a (f o)

  unfoldable pub if_object : StateDb → Address → (StateObject → StateObject) → StateDb
  unfolding get_state_object put_if
  if_object s a f = let (o, t) = get_state_object s a in put_if t a f o

  abbrev revert_ots : StateDb → Address → ℕ → Option StateDb
  revert_ots s a i =
      let (o, t) = get_state_object s a in
      bind o λ o. Option.map (λ p. put_object t a p) (set_ots_bitfield db o i true)

  -- logs[:len(logs)-1], or the deletion of the only one; an empty slice panics
  unfoldable pub drop_last_log : List Log → Option (List Log)
  drop_last_log [] = none
  drop_last_log (l ∷ ls) = some (take (length ls) (l ∷ ls))

  -- the revert methods of the entries
  unfoldable pub revert_entry : Entry → StateDb → Option StateDb
  unfolding on_object if_object set_state_object drop_last_log unmark
  revert_entry (create_object_change a) s = some (record s {
    objects = update s.objects a none;
    objects_dirty = update s.objects_dirty a false;
  })
  revert_entry (reset_object_change prev prevdestruct) s =
      let t = set_state_object s prev in
      some (record t {
        snap_destructs = unmark (not prevdestruct && has_snap) t.snap_destructs prev.address;
      })
  revert_entry (suicide_change a prev prevbalance) s =
      some (if_object s a λ o. set_balance prevbalance (record o { suicided = prev }))
  revert_entry (balance_change a prev) s = on_object s a (set_balance prev)
  revert_entry (stake_balance_change a prev) s = on_object s a (set_stake_balance prev)
  revert_entry (pending_stake_balance_change a prev) s =
      on_object s a (set_pending_stake_balance prev)
  revert_entry (nonce_change a prev) s = on_object s a (set_nonce prev)
  revert_entry (ots_bitfield_change a i) s = revert_ots s a i
  revert_entry (storage_change a key prev) s = on_object s a (set_state key prev)
  revert_entry (code_change a prevcode prevhash) s = on_object s a (set_code prevhash prevcode)
  revert_entry (refund_change prev) s = some (record s { refund = prev })
  revert_entry (add_log_change h) s =
      Option.map
        (λ ls. record s {
          logs = update s.logs h ls;
          log_size = (s.log_size + 2 ^ 64 - 1) % 2 ^ 64;
        })
        (drop_last_log (s.logs h))
  revert_entry (add_preimage_change h) s = some (record s { preimages = update s.preimages h none })
  revert_entry (touch_change a) s = some s
  revert_entry (access_list_add_account_change a) s =
      some (record s { access_list = delete_address s.access_list a })
  revert_entry (access_list_add_slot_change a slot) s =
      Option.map (λ al. record s { access_list = al }) (delete_slot s.access_list a slot)

  -- one round of journal.revert's loop
  unfoldable pub undo_entry : Entry → StateDb → Option StateDb
  unfolding dirtied drop_dirty
  undo_entry e s =
      Option.map (λ (t : StateDb). record t { dirties = drop_dirty (dirtied e) t.dirties })
        (revert_entry e s)

  -- the loop, from the last entry to the first
  unfoldable pub undo : List Entry → StateDb → Option StateDb
  undo [] s = some s
  undo (e ∷ es) s = bind (undo es s) (undo_entry e)

  -- journal.revert
  unfoldable pub revert_journal : StateDb → ℕ → Option StateDb
  unfolding undo
  revert_journal s n =
      Option.map (λ (t : StateDb). record t { entries = take n t.entries })
        (undo (drop n s.entries) s)

  -- Snapshot
  unfoldable pub snapshot : StateDb → ℕ × StateDb
  snapshot s = (
    s.next_revision_id,
    record s {
      next_revision_id = s.next_revision_id + 1;
      valid_revisions = s.valid_revisions ++ (s.next_revision_id, length s.entries) ∷ [];
    },
  )

  -- sort.Search over the revisions, whose ids grow: the revisions before the first with an id at least
  -- `id`, and its journal index if it has that id
  unfoldable pub find_revision : ℕ → List (ℕ × ℕ) → Option (List (ℕ × ℕ) × ℕ)
  find_revision id [] = none
  find_revision id ((i, n) ∷ rs) =
      let rest = Option.map (λ (r : List (ℕ × ℕ) × ℕ). ((i, n) ∷ r.0, r.1)) (find_revision id rs) in
      if i == id then some ([], n) else if leb i id then rest else none

  -- RevertToSnapshot; an id that is not valid panics
  unfoldable pub revert_to_snapshot : StateDb → ℕ → Option StateDb
  unfolding revert_journal find_revision
  revert_to_snapshot s id =
      bind (find_revision id s.valid_revisions)
        λ r. Option.map (λ (t : StateDb). record t { valid_revisions = r.0 }) (revert_journal s r.1)
