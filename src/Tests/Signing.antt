-- ===== src/Tests/Signing.antt =====
-- transactions: the theorems on signed bytes at concrete transactions.
use zond.Prelude.{◌≡◌, refl, some, [], ◌∷◌, arith}
use zond.Transactions.{Transaction, Transfer, transfer_message}
use zond.Transactions.Signing.{
  IsWords, SameFields, transfer_message_inj, creation_of, transfer_message-creation,
}

abbrev head : Transaction
head = record {
  chain_id = 1;
  gas = 21000;
  gas_price = 2;
  nonce = 3;
  pk = 7 ∷ [];
  signature = [];
  hash = 0;
}

abbrev payment : Transfer
payment = record { transfer_tx = head; to = some 513; value = 40; payload = 6 ∷ [] }

head-IsWords : IsWords head
head-IsWords = record {
  chain_id_lt = omega arith;
  gas_lt = omega arith;
  gas_price_lt = omega arith;
  nonce_lt = omega arith;
}

transfer_message_inj_example :
    SameFields head head
    × (payment.to ≡ payment.to)
    × (payment.value ≡ payment.value)
    × (payment.payload ≡ payment.payload)
transfer_message_inj_example =
    transfer_message_inj payment payment head-IsWords head-IsWords (omega arith) (omega arith)
      (omega arith, omega arith) refl

transfer_message-creation_example :
    transfer_message payment ≡ transfer_message (creation_of payment 513)
transfer_message-creation_example = transfer_message-creation payment 513 refl
