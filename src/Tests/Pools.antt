-- ===== src/Tests/Pools.antt =====
-- transactions/pool: a pool that got one transaction and lost it to a block.
use zond.Prelude.{refl, none, some, [], ◌∷◌}
use zond.Transactions.{Transaction, addr_from, address_of, dilithium_address_of, sized}
use zond.Pool.{
  TransactionPool, ok, error, create_transaction_pool, add, added, remove_tx_in_block, full, push,
  pushed, find_clash,
}
use zond.Pool.Bounds.{IsBounded}
use zond.Pool.Reached.{Reached-IsBounded}
use zond.Pool.Reached
use zond.Tests.Staking.{crypto}

abbrev tx : Transaction
tx = record {
  chain_id = 1;
  gas = 1200;
  gas_price = 2;
  nonce = 3;
  pk = 7 ∷ 1 ∷ [];
  signature = 9 ∷ [];
  hash = 35;
}

abbrev filled : TransactionPool
filled = elim (add crypto 2 create_transaction_pool tx 35 4 0 100) [
  | none ↦ create_transaction_pool
  | some r ↦ elim r [ ok t ↦ t | error f ↦ create_transaction_pool ]
]

Reached-IsBounded_example : IsBounded 2 (remove_tx_in_block crypto 2 filled (tx ∷ [])).tx_pool
unfolding add full push addr_from address_of dilithium_address_of sized find_clash pushed added
    create_transaction_pool
Reached-IsBounded_example =
    Reached-IsBounded crypto 2 (remove_tx_in_block crypto 2 filled (tx ∷ [])) (
      Reached.later filled (remove_tx_in_block crypto 2 filled (tx ∷ []))
        (Reached.later create_transaction_pool filled Reached.created
          (Reached.adds filled tx 35 4 0 100 refl))
        (Reached.removes_block (tx ∷ [])))
