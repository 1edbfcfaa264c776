-- ===== src/Lib.antt =====
-- The contracts of the Blend lending protocol: the pool (pool/), the backstop (backstop/), the factory
-- of pools (pool-factory/) and the oracle adapter (pool-oracle-adapter/), modelled as functions on
-- explicit ledgers.
--
-- A pool holds reserves. Users supply an asset for b tokens, pledge b tokens as collateral and borrow
-- against it for d tokens; rates turn tokens into the asset, and interest raises them. A transaction
-- (pool/src/pool/submit.rs) loads the pool and the sender, carries out a list of requests
-- (pool/src/pool/actions.rs), checks what they leave behind, moves the tokens and stores the reserves
-- and the positions. Reserves and prices are cached in the pool for the transaction. Users who owe too
-- much are liquidated by auctions; debt without collateral is set off against supply and then
-- forgiven at the cost of the suppliers. A backstop insures the pools: what it holds decides a pool's
-- status, its depositors leave through a queue with a lock, and the pools of its reward zone share
-- what the emitter gives, which the backstop pays to its depositors and lets the pools pay to theirs.
-- The factory deploys pools, and the backstop takes deposits only for pools that the factory knows.
--
-- Where the code is modelled:
--   Prelude          results and panics, `i128` with checked arithmetic, words, the host's `Map`
--   Env              the host and the arithmetic boundary (pool/src/math.rs, pool/src/constants.rs)
--   Storage          the ledger entries, their getters and setters (pool/src/storage.rs)
--   Interest         the interest rate model (pool/src/pool/interest.rs)
--   Reserve          a reserve and its accrual (pool/src/pool/reserve.rs)
--   Emissions        the emissions of a reserve token (pool/src/emissions/distributor.rs)
--   EmissionManager  their shares and claims (pool/src/emissions/manager.rs, `execute_claim`)
--   Pool             the pool's caches and guards (pool/src/pool/pool.rs)
--   User             positions and their changes (pool/src/pool/user.rs)
--   Health           the value of positions (pool/src/pool/health_factor.rs)
--   BadDebt          bad debt and gulp (pool/src/pool/bad_debt.rs, pool/src/pool/gulp.rs)
--   Status           the pool's status (pool/src/pool/status.rs, shared/backstop_threshold.rs)
--   Auction          auctions (pool/src/auctions/auction.rs)
--   Liquidation      their creation (pool/src/auctions/user_liquidation_auction.rs)
--   Actions          the requests (pool/src/pool/actions.rs)
--   Submit           a transaction and flash loans (pool/src/pool/submit.rs)
--   Config           configuration and its time lock (pool/src/pool/config.rs)
--   PoolContract     the pool's messages (pool/src/contract.rs)
--   BackstopAuctions auctions of bad debt and of interest (pool/src/auctions/bad_debt_auction.rs,
--                    pool/src/auctions/backstop_interest_auction.rs), which settle the bad debt of the
--                    backstop by BadDebt.BackstopDebt (pool/src/pool/bad_debt.rs)
--   Backstop         balances and the queue (backstop/src/backstop/pool.rs, .../user.rs); below it
--     Ledger           the entries (backstop/src/storage.rs)
--     Rewards          what a depositor earns and claims (backstop/src/emissions/distributor.rs,
--                      backstop/src/emissions/claim.rs)
--     Calls            deposit, withdrawal, draw and donate (backstop/src/backstop/deposit.rs,
--                      .../withdrawal.rs, .../fund_management.rs)
--     Zone             the reward zone (backstop/src/emissions/manager.rs)
--     Distribution     what the emitter gives, among the pools (the same file)
--     Contract         the messages (backstop/src/contract.rs)
--   PoolFactory      the deployment of pools (pool-factory/src)
--   OracleAdapter    prices for a pool (pool-oracle-adapter/src/lib.rs)
--   Tests            the theorems at concrete inputs
-- Modules below these hold the theorems and are named for what they prove; Actions.Requests has the
-- types and plans of the requests, Env.Math what the proofs rely on in the fixed-point crate.
--
-- How the code is read. A function that changes state takes the ledger and gives the new one; a panic
-- aborts the transaction, so it gives no ledger. `i128` values are integers whose `+`, `-` and `*` trap
-- outside of 128 bits; unsigned values are natural numbers that trap at their width. Addresses are
-- numbers in the order in which the host sorts them, and a map is a list in that order. A `Reserve`'s
-- field `data` is called `state`. Where a function of the source takes `&mut` arguments, the model
-- gives them back in order. Loops are recursion on the list that they run over, so none needs fuel.
-- A message handler takes the addresses that authorize the call as an argument, and panics when one
-- that it requires is not among them.
--
-- What stands outside is a parameter of the model: the fixed-point crate, of which `IsFixedMath` says
-- what the proofs rely on for the host's 256-bit variant (floor and ceiling of a product of any size
-- over a divisor, a trap at zero and where the result leaves 128 bits) and `IsPlainMath` for the plain
-- one (the floor for values that are not negative, a trap where the product or the result leaves
-- 128 bits); the oracle, the backstop's answers to the pool, whether a token call goes through, the
-- receiver of a flash loan, the emitter and the pool of the backstop's token, what the factory's
-- contract answers to the backstop, the deployment of a contract by the host and its hashes, and
-- the adapter's parent oracle with its scaling of prices.
--
-- Some of the code no message reaches, and its modules stand beside it all the same: the pool refuses
-- flash loans, a change of its take rate or emission shares, and the auctions of types 1 and 2, so
-- BackstopAuctions and BadDebt.BackstopDebt are not called; the backstop refuses to distribute, to
-- gulp, to change the reward zone and to pay claims, so only the accrual of Rewards is.
--
-- Not modelled: events, the time to live of entries, getters that only read an entry, and tests,
-- specifications and tooling (pool/src/proofs, test-suites/, mocks/).
pub mod Prelude
pub mod Env
pub mod Storage
pub mod Interest
pub mod Reserve
pub mod Emissions
pub mod Pool
pub mod PoolContract
pub mod PoolFactory
pub mod OracleAdapter
pub mod User
pub mod Health
pub mod BadDebt
pub mod Status
pub mod Auction
pub mod Liquidation
pub mod Actions
pub mod Submit
pub mod Config
pub mod EmissionManager
pub mod Backstop
pub mod BackstopAuctions
pub mod Tests
