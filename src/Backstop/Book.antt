-- ===== src/Backstop/Book.antt =====
-- What the backstop promises, without queues and totals: a book of accounts and tokens, and the steps
-- that the contract's messages may take in it. It refines this book.
use blend_contracts_v.Prelude.{
  Option, some, none, ◌∷◌, ◌==◌, ℤ, NonNeg, ◌≡◌, Bool, true, false, ◌&&◌, [], List,
}
use blend_contracts_v.Env.{Address}
use blend_contracts_v.Backstop.Contract.{
  BackstopMessage, deposit_msg, queue_msg, dequeue_msg, withdraw_msg, draw_msg, donate_msg,
}
use blend_contracts_v.Backstop.Ledger.{BackstopLedger, get_user_balance, get_pool_balance}
use blend_contracts_v.Backstop.Account.{Account, account_of, Move}
use blend_contracts_v.Backstop.Entry.{
  execute_dequeue_withdrawal-IsEntry, execute_queue_withdrawal-IsEntry,
  execute_queue_withdrawal-IsEntry, execute_dequeue_withdrawal-IsEntry,
}
use blend_contracts_v.Backstop.Messages.{none_left, Messages, then_message}

-- The accounts by pool and depositor, and the tokens by pool.
pub record Book : Type 0 where
  pub accounts : Address → Address → Account
  pub tokens : Address → ℤ

unfoldable pub book_of : BackstopLedger → Book
book_of l = record {
  accounts = λ pool user. account_of (get_user_balance l pool user);
  tokens = λ pool. (get_pool_balance l pool).tokens;
}

-- Only the tokens of one pool change.
pub record IsOnlyAt (pool : Address) (k k' : Book) : Type 0 where
  pub tokens : (p : Address) → (p == pool) ≡ false → k'.tokens p ≡ k.tokens p

-- The pool and the depositor whose account a message is about.
unfoldable pub account_named : BackstopMessage → Option (Address × Address)
account_named (deposit_msg from pool amount) = some (pool, from)
account_named (queue_msg from pool amount) = some (pool, from)
account_named (dequeue_msg from pool amount) = some (pool, from)
account_named (withdraw_msg from pool amount) = some (pool, from)
account_named m = none

-- The pool whose tokens a message of the pool is about.
unfoldable pub pool_named : BackstopMessage → Option Address
pool_named (draw_msg pool amount to) = some pool
pool_named (donate_msg from pool amount) = some pool
pool_named m = none

-- A step for a message and its authorizations moves the account that the message names, of a
-- depositor who authorized it, with the tokens of the account's pool, or the tokens alone of the pool
-- that it names, which authorized it.
pub data BookStep (auth : Address → Bool) (m : BackstopMessage) (k k' : Book) : Type 0 where
  by_depositor :
      (pool user : Address)
      → account_named m ≡ some (pool, user)
      → auth user ≡ true
      → Move (k.accounts pool user) (k.tokens pool) (k'.accounts pool user) (k'.tokens pool)
      → ((p u : Address) → (p == pool && u == user) ≡ false → k'.accounts p u ≡ k.accounts p u)
      → IsOnlyAt pool k k'
      → BookStep auth m k k'
  by_pool :
      (pool : Address)
      → pool_named m ≡ some pool
      → auth pool ≡ true
      → NonNeg (k'.tokens pool)
      → ((p u : Address) → k'.accounts p u ≡ k.accounts p u)
      → IsOnlyAt pool k k'
      → BookStep auth m k k'

-- A message with the authorizations that it came with.
abbrev pub Call : Type 0
Call = (Address → Bool) × BackstopMessage

-- One step for each call, in their order.
pub data BookSteps : List Call → Book → Book → Type 0 where
  still : {k : Book} → BookSteps [] k k
  step :
      {auth : Address → Bool} {m : BackstopMessage} {calls : List Call} {k k₁ k₂ : Book}
      → BookStep auth m k k₁
      → BookSteps calls k₁ k₂
      → BookSteps ((auth, m) ∷ calls) k k₂

-- The calls that some messages were.
unfoldable pub calls_of :
    {users : List Address} {l l' : BackstopLedger} → Messages users l l' → List Call
calls_of none_left = []
calls_of (then_message e auth m from h rest) = (auth, m) ∷ calls_of rest
