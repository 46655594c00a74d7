-- ===== src/State.antt =====
-- core/state: the state database that transactions execute on. `Account.antt` has the account object
-- and the committed state behind it, `AccessList.antt` the access list, `Db.antt` the database with
-- its journal, `Ops.antt` the operations, and `Revert` and its children the proofs.
pub mod Account
pub mod AccessList
pub mod Db
pub mod Ops
pub mod Ledger
pub mod Read
pub mod Finalise
pub mod Revert
