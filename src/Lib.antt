-- ===== src/Lib.antt =====
-- Verification library of zond, a proof-of-stake node with the Ethereum virtual machine and hash-based
-- and lattice signatures.
--
-- The parts and how they interact. A block's transactions run on a state database (core/state), which
-- caches accounts read from a snapshot or from the account trie, records every write in a journal, and
-- gives the virtual machine snapshots to go back to when a call fails; the gas of a transaction is bought
-- from the block's pool and returned to it (core). Accounts stand in Merkle tries (trie), whose nodes
-- keep their keys in hex and compact form, and are encoded with RLP (rlp).
--
-- Which file models which part:
--   Prelude           shared names, Boolean tests, lists, bytes, integers and maps; no code
--   State/Account     core/state/state_object.go and core/types/state_account.go: account, object,
--                     newObject, empty, Code, GetState, GetCommittedState and the plain setters. A
--                     read that fills a cache is two functions, the answer and the object after it.
--   State/AccessList  core/state/access_list.go: the whole file but Copy
--   State/Db          core/state/statedb.go and journal.go: StateDB, the journal's entries with
--                     dirtied and revert, journal.append and journal.revert, getStateObject,
--                     Snapshot, RevertToSnapshot
--   State/Ops         the setters of StateDB, each with the one of stateObject that it calls
--   State/Revert      what a reader can tell of a database, and the proofs on the journal; Program
--                     has the sequences of writes and calls that the virtual machine can make
--   State/Read        the getters of core/state/statedb.go
--   State/Finalise    Finalise and clearJournalAndRefund, and stateObject.finalise
--   Trie/Encoding     trie/encoding.go
--   Pool              transactions/pool: the queue of transactions and the pool around it
--   Trie/Nodes        trie/node.go and trie/trie.go: tryGet, insert and delete
--   Vm                core/vm: the stack, the memory and its gas, the analysis of jump destinations
--   Vm/Instructions   core/vm/instructions.go: the instructions
--   Vm/Calls          core/vm/evm.go: Call, CallCode, Create and create, and RunPrecompiledContract
--   Vm/Interpreter    core/vm/interpreter.go: Run
--   Vm/JumpTable      core/vm/jump_table.go and core/vm/stack_table.go: the Frontier table
--   State/Ledger      the database as a map from addresses to nonces, balances and stakes
--   Transactions      transactions/*.go: the fields, the signed bytes and the hashes
--   Staking/Epoch     metadata/epoch.go and metadata/slotvalidators.go
--   Staking/Context   state/statecontext.go
--   Staking/Apply     core/state_processor.go: applyStakeTransaction, applyCoinBaseTransaction,
--                     applyAttestTransaction, UpdateStakeValidators and ProcessEpochMetaData
--   Staking/Validate  core/state_processor.go: the validations, and misc.IsUsedOTSIndex
--   Rlp               rlp/raw.go, with headsize and intsize of rlp/encode.go
--   Gas               core/gaspool.go and, of core/state_transition.go, IntrinsicGas, buyGas,
--                     gasUsed and refundGas; Gas/Check has preCheck
--   Tests             the theorems at concrete inputs
--
-- Conventions. Addresses and hashes are numbers; a Go map is a function with an absent key's value
-- written out; a Go panic is `none`; uint64 and uint counters wrap around at 2 ^ 64; *big.Int is an
-- integer. A pointer to an object is its address, since live objects are reached only through the
-- database's map. The hash of an address is the address, which takes the hash to be injective.
-- The snapshot, the account trie, the storage tries and the code store are parameters (Backend), read
-- only while a block is processed. Loops are structural, except that CountValues has fuel for each byte
-- of its input and intsize eight rounds, and that tryGet, insert and delete recurse to a depth that is given:
-- one more than the length of the key is enough where no node is behind a hash. The loop of the virtual
-- machine is given a number of rounds: one more than its gas is enough. The 256-bit arithmetic of the
-- uint256 package with its words' bytes, the hash and what evm.go asks of the
-- state database and the block context are arguments there. Calls are nested by recursion on the
-- number of calls above the depth limit, 1025 less the depth, and each run is given one more round
-- than its gas.
--
-- Not modelled: IntermediateRoot, Commit and Copy of the database, TransitionDb,
-- the prefetcher and the metrics; the hashes and the proofs of tries; DelegateCall, StaticCall and
-- Create2 of the virtual machine, its later tables, its precompiled contracts and its tracing; the chain,
-- the network, the interfaces, and the copies of cryptographic libraries.
pub mod Prelude
pub mod Trie
pub mod State
pub mod Rlp
pub mod Gas
pub mod Pool
pub mod Vm
pub mod Transactions
pub mod Staking
pub mod Tests
