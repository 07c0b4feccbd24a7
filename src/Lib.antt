-- ===== src/Lib.antt =====
-- Vatix is a prediction market on Soroban, the contract platform of Stellar. Its contracts stand in
-- contracts/: the market contract holds markets, positions and collateral; the resolution contract
-- runs the dispute game that decides a market's outcome and calls back into the market contract; the
-- treasury keeps the fees that markets report and shares them out; the outcome token carries the
-- metadata of an outcome.
--
-- Prelude holds what the parts share: the Boolean tests (Tests), lists (Lists), integers and the range
-- of i128 (Int), and the calls of a contract as state passing (Contract), where a call returns with a
-- new state, returns an error, or traps. The workspace builds with overflow checks, so a plain sum,
-- difference or product out of range is a trap. The host rolls back a call that does not return.
--
-- Resolution models contracts/resolution/src:
--   Types           types.rs, error.rs
--   World, Storage  storage.rs: one field for each StorageKey, one definition for each accessor; Env
--                   is the host in one call: the time, who signs, and the answers of the market
--                   contract and of the token contracts, which may depend on all that was done before
--   Events          events.rs: each event is put on the log, with the transfers, burns and calls
--   Guards          the guards, validators, constants and calls of other contracts of lib.rs
--   Bonds           split_bond, settle_challengers_as_losers, the refunds, the call-back
--   Candidates      propose, propose_v2, challenge, appeal
--   Terminal        finalize, arbitrate_uphold_proposer, void_market; each is its guards and the write
--                   of the candidate, the payments, and the call of the market contract
--   Admin           the other entry points that change state
--   Lifecycle       the dispute game as an abstract machine (Docket, Move); Filing and Contesting say
--                   what a return of the opening entry points has done, Refinement and Endings that
--                   each is a move, Invariant what every move keeps
--   History         any calls one after another, with roll-back; what holds after every history
--   Money, Solvency the contract's balances as the log tells them, against the bonds that it owes
--   Timelock        the changes of addresses that wait
--   Calls           what single calls answer
--   Tests           a dispute on concrete data
--
-- Market models a part of contracts/market/src:
--   Types           the errors, the status of a market, positions
--   Validation      validation.rs, except for the guards that read the storage
--   Positions       the locked collateral, transfer_position and merge_positions of positions.rs; the
--                   storage accessors they call are not defined in storage.rs, so they are an
--                   interface (PositionStore) whose writes may fail, since the code passes over
--                   their errors, with the laws IsPositionStore, and KeepsWrites where a statement is
--                   about writes that succeed; History are transfers and merges in any order
--   Custody         the collateral of users: Store is the interface of the storage accessors that
--                   storage.rs does not define, with its laws IsMarketStore, and World the host and the
--                   log; Deposit is deposit.rs, Withdrawal withdraw.rs, Settlement settlement.rs and
--                   Parity the check of reconciliation.rs that a settlement makes, which answers a
--                   Result as a value, since a batch goes on after an error; Ledger reads the log,
--                   Accounts and History are the books of a user over any calls, Settlement/Visits
--                   the loops of a batch and a page, Settlement/Pages one page and Settlement/Rounds
--                   the calls that a page's comment asks for, from page to page
--   Tests           a storage of positions that has these laws
--
-- Treasury models contracts/treasury/src:
--   Types           error.rs and the structs of storage.rs
--   World, Storage  storage.rs: one field for each key that has accessors there. lib.rs also calls
--                   accessors that storage.rs does not define (the pause flag, the emergency mode, the
--                   fee tokens, the total, the stakeholders): they are an interface, Accessors, over a
--                   type of what they keep
--   Events          events.rs
--   Guards          the guards that the entry points of lib.rs share
--   Fees            collect_fee, withdraw_fees
--   Distribution    propose_stakeholders, execute_stakeholders, cancel_stakeholders, distribute_fees;
--                   Shares is the arithmetic of the portions, Payments what is paid
--   Registry        the markets that may report fees
--   Admin           the deployment, the administrator, the pause flag, the emergency mode
--   Laws            what is assumed of the accessors that are not defined: the stakeholders and the
--                   pending ones are read back as written, and no other accessor writes them
--   History         any calls one after another, with roll-back: the ledger in the log (Ledger), the
--                   shares (Weights), the books (Custody, Books), who may call (Authority), and the
--                   administrator and the set of markets (Directory, Roles)
--   Tests           accessors that keep a record, and runs
--
-- OutcomeToken models contracts/outcome-token/src/lib.rs: the metadata of a token, and its histories.
--
-- Numbers are natural numbers and the integers over them. Loops are recursion on lists; the one loop
-- with a bound, market_id_to_string, recurses on its buffer of ten bytes, which is enough for every
-- u32. Addresses are numbers, since they are only compared; strings and signatures are lists of bytes.
--
-- Not modelled: the time to live of storage entries; the signature check, which the market contract
-- answers; update_position of the market, which ends in the middle of a call in the source; the
-- market's oracle, fee waivers, typed keys, entry points and the administrator's repair of outcome
-- tokens; the accessors of the outcome token, which are no part of its crate; the web application and
-- the scripts.
pub mod Prelude
pub mod Resolution
pub mod Market
pub mod Treasury
pub mod OutcomeToken
