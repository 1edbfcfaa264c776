-- ===== src/Backstop.antt =====
-- A pool's balance in the backstop and a user's share of it: backstop/src/backstop/pool.rs and
-- backstop/src/backstop/user.rs. Shares leave through a queue with a lock of seventeen days.
pub mod Ledger
pub mod Rewards
pub mod Calls
pub mod Zone
pub mod RewardZone
pub mod Distribution
pub mod Contract
pub mod Queue
pub mod Frame
pub mod Account
pub mod Entry
pub mod TokenMoves
pub mod Book
pub mod Undo
pub mod Price
pub mod Access
pub mod Sheet
pub mod Messages
pub mod Dequeue
use blend_contracts_v.Prelude.{
  ℕ, leb, if◌then◌else◌, BackstopError, Result, ◌>>=◌, ◌>>◌, panic_if, ◌+!◌, ◌-!◌, add_u,
  balance_error, not_expired, insufficient_funds, not_pool, too_many_q4w_entries, backstop_error,
  ok, err, ℤ, ltb_ℤ, leb_ℤ, eqb_ℤ, pos, Bool, not, ◌&&◌, ◌||◌, List, [], ◌∷◌, ◌++◌, reverse,
}
use blend_contracts_v.Env.{FixedMath, PoolBackstopData}
use blend_contracts_v.Status.{threshold_pc, saturating_backstop_product}
use blend_contracts_v.Storage.{length}

pub record PoolBalance : Type 0 where
  pub shares : ℤ
  pub tokens : ℤ
  pub q4w : ℤ

pub record Q4W : Type 0 where
  pub amount : ℤ
  pub exp : ℕ

pub record UserBalance : Type 0 where
  pub shares : ℤ
  pub q4w : List Q4W

-- `math.floor` stands for the fixed-point crate's `fixed_mul_floor` on plain `i128`, unwrapped: unlike
-- the one that the pool calls, it also fails where the product leaves 128 bits.
module _ (math : FixedMath) (b : PoolBalance) where
  unfoldable pub convert_to_shares : ℤ → Result ℤ
  convert_to_shares tokens =
      if eqb_ℤ b.shares (pos 0)
      then ok tokens
      else (if eqb_ℤ b.tokens (pos 0) then ok (pos 0) else math.floor tokens b.shares b.tokens)

  unfoldable pub convert_to_tokens : ℤ → Result ℤ
  convert_to_tokens shares =
      if eqb_ℤ b.shares (pos 0)
      then ok (pos 0)
      else (if eqb_ℤ b.shares shares then ok b.tokens else math.floor shares b.tokens b.shares)

  unfoldable pub non_queued_tokens : Result ℤ
  non_queued_tokens = do queued ← convert_to_tokens b.q4w; b.tokens -! queued

unfoldable pub deposit : PoolBalance → ℤ → ℤ → Result PoolBalance
deposit b tokens shares = do
  new_tokens ← b.tokens +! tokens
  new_shares ← b.shares +! shares
  ok (record b { tokens = new_tokens; shares = new_shares })

unfoldable pub withdraw_balance : PoolBalance → ℤ → ℤ → Result PoolBalance
withdraw_balance b tokens shares = do
  panic_if (ltb_ℤ b.tokens tokens || ltb_ℤ b.shares shares || ltb_ℤ b.q4w shares)
      (backstop_error BackstopError.insufficient_funds)
  new_tokens ← b.tokens -! tokens
  new_shares ← b.shares -! shares
  new_q4w ← b.q4w -! shares
  ok (record { shares = new_shares; tokens = new_tokens; q4w = new_q4w })

unfoldable pub queue_for_withdraw : PoolBalance → ℤ → Result PoolBalance
queue_for_withdraw b shares = do q4w ← b.q4w +! shares; ok (record b { q4w = q4w })

unfoldable pub dequeue_balance : PoolBalance → ℤ → Result PoolBalance
dequeue_balance b shares = do
  panic_if (ltb_ℤ b.q4w shares) (backstop_error BackstopError.insufficient_funds)
  q4w ← b.q4w -! shares
  ok (record b { q4w = q4w })

-- A pool without a balance has to come from the factory.
unfoldable pub require_is_from_pool_factory : Bool → ℤ → Result (Unit {0})
require_is_from_pool_factory is_pool balance =
    panic_if (eqb_ℤ balance (pos 0) && not is_pool) (backstop_error BackstopError.not_pool)

unfoldable pub backstop_threshold_from_product : ℤ → Bool
backstop_threshold_from_product product = leb_ℤ (pos threshold_pc) product

unfoldable pub is_pool_above_threshold : PoolBackstopData → Bool
is_pool_above_threshold p =
    backstop_threshold_from_product (saturating_backstop_product p.blnd p.usdc)

abbrev pub max_q4w_size : ℕ
max_q4w_size = 20

abbrev pub q4w_lock_time : ℕ
q4w_lock_time = 1_468_800

unfoldable pub add_shares : UserBalance → ℤ → Result UserBalance
add_shares u to_add = do shares ← u.shares +! to_add; ok (record u { shares = shares })

unfoldable pub queue_shares_for_withdrawal : ℕ → UserBalance → ℤ → Result UserBalance
queue_shares_for_withdrawal now u to_q = do
  panic_if (ltb_ℤ u.shares to_q) (backstop_error BackstopError.balance_error)
  panic_if (leb max_q4w_size (length u.q4w)) (backstop_error BackstopError.too_many_q4w_entries)
  shares ← u.shares -! to_q
  exp ← add_u 64 now q4w_lock_time
  ok (record { shares = shares; q4w = u.q4w ++ (record { amount = to_q; exp = exp } ∷ []) })

-- The queue after `left` shares are taken from its front, and what could not be taken.
unfoldable pub take_front : ℕ → List Q4W → ℤ → Result (List Q4W × ℤ)
take_front now [] left = ok ([], left)
take_front now (cur ∷ rest) left =
    let after = (do left' ← left -! cur.amount; take_front now rest left') in
    if leb cur.exp now
    then (if ltb_ℤ left cur.amount
        then (do amount ← cur.amount -! left; ok (record cur { amount = amount } ∷ rest, pos 0))
        else (if eqb_ℤ cur.amount left then ok (rest, pos 0) else after))
    else err (backstop_error BackstopError.not_expired)

unfoldable pub withdraw_shares : ℕ → UserBalance → ℤ → Result UserBalance
withdraw_shares now u to_withdraw = do
  (q4w, left) ← take_front now u.q4w to_withdraw
  panic_if (ltb_ℤ (pos 0) left) (backstop_error BackstopError.balance_error)
  ok (record u { q4w = q4w })

-- The same for the entries from the newest on, with no lock to wait for.
unfoldable pub take_newest : List Q4W → ℤ → Result (List Q4W × ℤ)
take_newest [] left = ok ([], left)
take_newest (cur ∷ rest) left =
    let after = (do left' ← left -! cur.amount; take_newest rest left') in
    if ltb_ℤ left cur.amount
    then (do amount ← cur.amount -! left; ok (record cur { amount = amount } ∷ rest, pos 0))
    else (if eqb_ℤ cur.amount left then ok (rest, pos 0) else after)

unfoldable pub dequeue_shares : UserBalance → ℤ → Result UserBalance
dequeue_shares u to_dequeue = do
  (newest_first, left) ← take_newest (reverse u.q4w) to_dequeue
  panic_if (ltb_ℤ (pos 0) left) (backstop_error BackstopError.balance_error)
  ok (record u { q4w = reverse newest_first })
