-- ===== src/Pool/Reached.antt =====
-- transactions/pool: the pools that the operations reach from an empty one.
use zond.Prelude.{
  ℕ, ◌≡◌, refl, sym, ap, subst, ◌∙◌, Bool-cases, Option, none, some, List, [], ◌∷◌, ◌==◌,
  if◌then◌else◌, bind, bind-some, some_inj, arith, inl, inr,
}
use zond.State.Account.{Hash}
use zond.Transactions.{Crypto, Transaction}
use zond.Pool.{
  TransactionInfo, create_transaction_info, Outcome, ok, error, full, push, pop_last, remove,
  remove_all, TransactionPool, create_transaction_pool, delete_nonce_data, add_nonce_data, added,
  add, popped, pop, remove_tx, remove_tx_in_block, after_add, add_tx_from_block, pool_is_full,
}
use zond.Pool.Bounds.{
  IsBounded, remove-Keeps, remove_all-Keeps, Keeps-IsBounded, pop_last-Keeps, delete_nonces_pool,
  push-IsBounded,
}

module _ (c : Crypto) (size : ℕ) where
  abbrev pub Fits : TransactionPool → Type 0
  Fits t = IsBounded size t.tx_pool

  unok : TransactionPool → Outcome TransactionPool → TransactionPool
  unok d (ok t) = t
  unok d (error f) = d

  added-Fits :
      (t t' : TransactionPool) (tx : Transaction) (r : Outcome (List TransactionInfo))
      → ((pq : List TransactionInfo) → r ≡ ok pq → IsBounded size pq)
      → added c size t tx r ≡ ok t'
      → Fits t'
  unfolding added add_nonce_data unok
  added-Fits t t' tx (error f) h e = cc
  added-Fits t t' tx (ok pq) h e =
      subst (IsBounded size) (ap (λ (x : TransactionPool). x.tx_pool) (ap (unok t) e)) (h pq refl)

  add-Fits :
      (t t' : TransactionPool) (tx : Transaction) (h : Hash) (slot timestamp now : ℕ)
      → Fits t
      → add c size t tx h slot timestamp now ≡ some (ok t')
      → Fits t'
  unfolding add
  add-Fits t t' tx h slot timestamp now v e =
      let time = if timestamp == 0 then now else timestamp in
      let new = create_transaction_info tx h slot time in
      elim (Bool-cases (full size t.tx_pool)) [
        | inl f ↦ absurd (
            apart (
              some_inj (error pool_is_full) (ok t')
                (sym (ap (λ b. if b then some (error pool_is_full) else tried new) f) ∙ e)))
        | inr f ↦
            let (r, p, e') =
              bind-some (push c t.tx_pool new) _ (ok t')
                (sym (ap (λ b. if b then some (error pool_is_full) else tried new) f) ∙ e) in
            added-Fits t t' tx r
              (λ pq q. push-IsBounded c size t.tx_pool pq new f v.apart (p ∙ ap (λ x. some x) q))
              (some_inj (added c size t tx r) (ok t') e')
      ]
    where
      tried : TransactionInfo → Option (Outcome TransactionPool)
      tried new = bind (push c t.tx_pool new) (λ r. some (added c size t tx r))

      apart : error pool_is_full ≡ ok t' → ⊥
      apart q = cc

  popped-Fits :
      (t : TransactionPool) (r : Option (TransactionInfo × List TransactionInfo))
      → Fits t
      → pop_last t.tx_pool ≡ r
      → Fits (popped c size t r).1
  unfolding popped delete_nonce_data
  popped-Fits t none v e = v
  popped-Fits t (some (ti, left)) v e =
      Keeps-IsBounded size t.tx_pool left (pop_last-Keeps t.tx_pool left ti e) v

  pop-Fits : (t : TransactionPool) → Fits t → Fits (pop c size t).1
  unfolding pop
  pop-Fits t v = popped-Fits t (pop_last t.tx_pool) v refl

  remove_tx-Fits :
      (t : TransactionPool) (tx : Transaction) (h : Hash)
      → Fits t
      → Fits (remove_tx c size t tx h).1
  unfolding remove_tx delete_nonce_data
  remove_tx-Fits t tx h v =
      let less =
        Keeps-IsBounded size t.tx_pool (remove t.tx_pool h).1 (remove-Keeps t.tx_pool h) v in
      elim (Bool-cases (remove t.tx_pool h).0) [ inl e ↦ rw e less | inr e ↦ rw e less ]

  remove_tx_in_block-Fits :
      (t : TransactionPool) (txs : List Transaction)
      → Fits t
      → Fits (remove_tx_in_block c size t txs)
  unfolding remove_tx_in_block
  remove_tx_in_block-Fits t txs v =
      let left = remove_all t.tx_pool txs in
      subst (IsBounded size) (sym (delete_nonces_pool c size (record t { tx_pool = left }) txs))
        (Keeps-IsBounded size t.tx_pool left (remove_all-Keeps t.tx_pool txs) v)

  add_tx_from_block-Fits :
      (txs : List Transaction) (t t' : TransactionPool) (height now : ℕ)
      → Fits t
      → add_tx_from_block c size t txs height now ≡ some t'
      → Fits t'
  unfolding add_tx_from_block after_add add_nonce_data
  add_tx_from_block-Fits [] t t' height now v e = subst Fits (some_inj t t' e) v
  add_tx_from_block-Fits (tx ∷ txs) t t' height now v e =
      let (r, a, e') = bind-some (add c size t tx tx.hash height now now) _ t' e in
      on_add r a e' (λ u w. add_tx_from_block-Fits txs u t' height now w)
    where
      on_add :
          (r : Outcome TransactionPool)
          → add c size t tx tx.hash height now now ≡ some r
          → (let (u, more) = after_add c size t tx r in
              if more then add_tx_from_block c size u txs height now else some u)
            ≡ some t'
          → ((u : TransactionPool)
              → Fits u
              → add_tx_from_block c size u txs height now ≡ some t'
              → Fits t')
          → Fits t'
      on_add (error f) a e' rest = subst Fits (some_inj t t' e') v
      on_add (ok u) a e' rest =
          let w = add-Fits t u tx tx.hash height now now v a in
          rest (add_nonce_data c size u tx.pk tx.nonce) w e'

  -- The operations of a pool that end without a panic or an error
  pub data Step (t : TransactionPool) : TransactionPool → Type 0 where
    adds :
        (t' : TransactionPool) (tx : Transaction) (h : Hash) (slot timestamp now : ℕ)
        → add c size t tx h slot timestamp now ≡ some (ok t')
        → Step t t'
    pops : Step t (pop c size t).1
    removes : (tx : Transaction) (h : Hash) → Step t (remove_tx c size t tx h).1
    removes_block : (txs : List Transaction) → Step t (remove_tx_in_block c size t txs)
    adds_block :
        (t' : TransactionPool) (txs : List Transaction) (height now : ℕ)
        → add_tx_from_block c size t txs height now ≡ some t'
        → Step t t'

  pub data Reached : TransactionPool → Type 0 where
    created : Reached create_transaction_pool
    later : (t t' : TransactionPool) → Reached t → Step t t' → Reached t'

  Step-Fits : (t t' : TransactionPool) → Fits t → Step t t' → Fits t'
  Step-Fits t _ v (adds t' tx h slot timestamp now e) = add-Fits t t' tx h slot timestamp now v e
  Step-Fits t _ v pops = pop-Fits t v
  Step-Fits t _ v (removes tx h) = remove_tx-Fits t tx h v
  Step-Fits t _ v (removes_block txs) = remove_tx_in_block-Fits t txs v
  Step-Fits t _ v (adds_block t' txs height now e) = add_tx_from_block-Fits txs t t' height now v e

  -- Every pool that is reached from an empty one by Add, Pop, Remove, RemoveTxInBlock and
  -- AddTxFromBlock, where no step panics or answers an error but AddTxFromBlock may end on one,
  -- holds no transaction hash twice, and at most one transaction more than its size.
  pub Reached-IsBounded : (t : TransactionPool) → Reached t → IsBounded size t.tx_pool
  unfolding create_transaction_pool
  Reached-IsBounded _ created = record { short = omega arith; apart = refl }
  Reached-IsBounded _ (later t t' r step) = Step-Fits t t' (Reached-IsBounded t r) step
