-- ===== src/Pool.antt =====
-- transactions/pool: the queue of transactions and the pool around it. The lock makes each operation one
-- step. The size comes from the configuration, and the time from ntp, which is taken to be one time for
-- all transactions of a block; a Go panic is `none`. `index`
-- is left out: it is written and not read.
pub mod Bounds
pub mod Reached
use zond.Prelude.{
  ℕ, zero, suc, ◌+◌, ◌*◌, Bool, true, false, ◌&&◌, Option, none, some, List, [], ◌∷◌, ◌++◌, ◌==◌,
  ltb, if◌then◌else◌, length, take, bind,
}
use zond.Prelude.Maps.{update}
use zond.State.Account.{Address, Hash}
use zond.Transactions.{Bytes, Crypto, Transaction, addr_from, address_of}
use zond.Staking.{same_bytes}
use zond.Staking.Validate.{ots_index_of}

pub record TransactionInfo : Type 0 where
  pub tx : Transaction
  pub info_hash : Hash
  pub block_number : ℕ
  pub timestamp : ℕ
  pub priority : ℕ

unfoldable pub create_transaction_info : Transaction → Hash → ℕ → ℕ → TransactionInfo
create_transaction_info tx h block_number timestamp = record {
  tx = tx;
  info_hash = h;
  block_number = block_number;
  timestamp = timestamp;
  priority = 0;
}

pub data Fault : Type 0 where
  pool_is_full : Fault
  already_exists : Fault
  same_ots_key : Fault

pub data Outcome {ℓ} (A : Type ℓ) : Type ℓ where
  ok : A → Outcome A
  error : Fault → Outcome A

-- PriorityQueue.Full
unfoldable pub full : ℕ → List TransactionInfo → Bool
full size pq = ltb size (length pq)

-- CheckOTSExist; a signature that is too short panics
unfoldable pub check_ots_exist : TransactionInfo → Transaction → Option Bool
unfolding ots_index_of
check_ots_exist ti tx =
    bind (ots_index_of ti.tx.signature) λ i. bind (ots_index_of tx.signature) λ j. some (i == j)

-- the loop of Push: the first clash, if there is one
unfoldable pub find_clash : Bool → TransactionInfo → List TransactionInfo → Option (Option Fault)
unfolding check_ots_exist
find_clash is_valid_xmss new [] = some none
find_clash is_valid_xmss new (ti ∷ rest) =
    let later = find_clash is_valid_xmss new rest in
    if ti.info_hash == new.info_hash
    then some (some already_exists)
    else if is_valid_xmss && same_bytes ti.tx.pk new.tx.pk
    then bind (check_ots_exist ti new.tx) (λ same. if same then some (some same_ots_key) else later)
    else later

-- the end of Push, on the clash
unfoldable pub pushed :
    List TransactionInfo → TransactionInfo → Option Fault → Outcome (List TransactionInfo)
pushed pq new none = ok (pq ++ new ∷ [])
pushed pq new (some fault) = error fault

-- PriorityQueue.Push
unfoldable pub push :
    Crypto → List TransactionInfo → TransactionInfo → Option (Outcome (List TransactionInfo))
unfolding find_clash pushed addr_from
push c pq new = bind (addr_from c new.tx) λ from.
    bind (find_clash (c.is_valid_xmss_address from) new pq) λ clash. some (pushed pq new clash)

-- PriorityQueue.Pop: the last, and those before it
unfoldable pub pop_last : List TransactionInfo → Option (TransactionInfo × List TransactionInfo)
pop_last [] = none
pop_last (ti ∷ rest) = some (last ti rest, take (length rest) (ti ∷ rest))
  where
    last : TransactionInfo → List TransactionInfo → TransactionInfo
    last ti [] = ti
    last ti (next ∷ rest) = last next rest

-- PriorityQueue.Remove: whether there was one, and the queue without the first
unfoldable pub remove : List TransactionInfo → Hash → Bool × List TransactionInfo
remove [] h = (false, [])
remove (ti ∷ rest) h =
    let (found, left) = remove rest h in
    if ti.info_hash == h then (true, rest) else (found, ti ∷ left)

-- PriorityQueue.RemoveTxInBlock
unfoldable pub remove_all : List TransactionInfo → List Transaction → List TransactionInfo
unfolding remove
remove_all pq [] = pq
remove_all pq (tx ∷ txs) = remove_all (remove pq tx.hash).1 txs

-- PriorityQueue.Contains
unfoldable pub contains_hash : List TransactionInfo → Hash → Bool
contains_hash [] h = false
contains_hash (ti ∷ rest) h = if ti.info_hash == h then true else contains_hash rest h

pub record TransactionPool : Type 0 where
  pub tx_pool : List TransactionInfo
  pub nonce : Address → Option ℕ

-- CreateTransactionPool
unfoldable pub create_transaction_pool : TransactionPool
create_transaction_pool = record { tx_pool = []; nonce = λ a. none }

-- delete(t.nonce, address), if it is this nonce
unfoldable pub without_nonce : Option ℕ → ℕ → Option ℕ
without_nonce none nonce = none
without_nonce (some current) nonce = if current == nonce then none else some current

-- the greater nonce
unfoldable pub greater_nonce : Option ℕ → ℕ → Option ℕ
greater_nonce none nonce = some nonce
greater_nonce (some current) nonce = if ltb current nonce then some nonce else some current

module _ (c : Crypto) (size : ℕ) where
  unfoldable pub delete_nonce_data : TransactionPool → Bytes → ℕ → TransactionPool
  unfolding without_nonce address_of
  delete_nonce_data t pk nonce =
      let a = address_of c pk in
      record t { nonce = update t.nonce a (without_nonce (t.nonce a) nonce) }

  unfoldable pub add_nonce_data : TransactionPool → Bytes → ℕ → TransactionPool
  unfolding greater_nonce address_of
  add_nonce_data t pk nonce =
      let a = address_of c pk in
      record t { nonce = update t.nonce a (greater_nonce (t.nonce a) nonce) }

  -- the end of Add, on what Push answers
  unfoldable pub added :
      TransactionPool → Transaction → Outcome (List TransactionInfo) → Outcome TransactionPool
  unfolding add_nonce_data
  added t tx (error fault) = error fault
  added t tx (ok pq) = ok (add_nonce_data (record t { tx_pool = pq }) tx.pk tx.nonce)

  -- TransactionPool.Add; `now` is the time of ntp
  unfoldable pub add :
      TransactionPool → Transaction → Hash → ℕ → ℕ → ℕ → Option (Outcome TransactionPool)
  unfolding full push added create_transaction_info
  add t tx h slot_number timestamp now =
      let time = if timestamp == 0 then now else timestamp in
      if full size t.tx_pool
      then some (error pool_is_full)
      else bind (push c t.tx_pool (create_transaction_info tx h slot_number time))
          (λ r. some (added t tx r))

  -- TransactionPool.Pop
  unfoldable pub popped :
      TransactionPool
      → Option (TransactionInfo × List TransactionInfo)
      → Option TransactionInfo × TransactionPool
  unfolding delete_nonce_data
  popped t none = (none, t)
  popped t (some (ti, rest)) =
      (some ti, delete_nonce_data (record t { tx_pool = rest }) ti.tx.pk ti.tx.nonce)

  unfoldable pub pop : TransactionPool → Option TransactionInfo × TransactionPool
  unfolding popped pop_last
  pop t = popped t (pop_last t.tx_pool)

  -- TransactionPool.Remove; the nonce is deleted if nothing was removed
  unfoldable pub remove_tx : TransactionPool → Transaction → Hash → Bool × TransactionPool
  unfolding remove delete_nonce_data
  remove_tx t tx h =
      let (found, rest) = remove t.tx_pool h in
      if found
      then (true, record t { tx_pool = rest })
      else (false, delete_nonce_data (record t { tx_pool = rest }) tx.pk tx.nonce)

  unfoldable pub delete_nonces : TransactionPool → List Transaction → TransactionPool
  unfolding delete_nonce_data
  delete_nonces t [] = t
  delete_nonces t (tx ∷ txs) = delete_nonces (delete_nonce_data t tx.pk tx.nonce) txs

  -- TransactionPool.RemoveTxInBlock
  unfoldable pub remove_tx_in_block : TransactionPool → List Transaction → TransactionPool
  unfolding remove_all delete_nonces
  remove_tx_in_block t txs = delete_nonces (record t { tx_pool = remove_all t.tx_pool txs }) txs

  -- one round of AddTxFromBlock: the pool after it, and whether the loop goes on
  unfoldable pub after_add :
      TransactionPool → Transaction → Outcome TransactionPool → TransactionPool × Bool
  unfolding add_nonce_data
  after_add t tx (error fault) = (t, false)
  after_add t tx (ok t') = (add_nonce_data t' tx.pk tx.nonce, true)

  -- TransactionPool.AddTxFromBlock: the pool after it, also if an error ended the loop
  unfoldable pub add_tx_from_block :
      TransactionPool → List Transaction → ℕ → ℕ → Option TransactionPool
  unfolding add after_add
  add_tx_from_block t [] height now = some t
  add_tx_from_block t (tx ∷ txs) height now = bind (add t tx tx.hash height now now) λ r.
      let (t', more) = after_add t tx r in
      let rest = add_tx_from_block t' txs height now in if more then rest else some t'
