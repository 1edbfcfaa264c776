-- ===== src/Backstop/Messages.antt =====
-- Sequences of messages to the backstop, backstop/src/contract.rs: the balance sheet of every pool
-- holds through them, and a balance changes only at its owner's word.
use blend_contracts_v.Prelude.{
  >>=-elim, panic_if-elim, ok-injective, ok, ◌≡◌, subst, Bool, true, not, List,
}
use blend_contracts_v.Env.{Address}
use blend_contracts_v.Backstop.Ledger.{BackstopEnv, BackstopLedger}
use blend_contracts_v.Backstop.Contract.{
  distribute_msg, drop_msg, gulp_msg, remove_reward_msg, add_reward_msg, claim_msg, BackstopMessage,
  deposit_msg, handle, queue_msg, dequeue_msg, withdraw_msg, draw_msg, donate_msg, gulp_msg,
  remove_reward_msg, add_reward_msg, claim_msg,
}
use blend_contracts_v.Backstop.Sheet.{
  IsTokenMove-IsSheet, IsSheet, distinct, IsEntry-IsSheet, IsTokenMove-IsSheet,
}
use blend_contracts_v.Pool.{contains}
use blend_contracts_v.Backstop.Calls.{execute_deposit, execute_queue_withdrawal, execute_withdraw}
use blend_contracts_v.Backstop.Entry.{
  execute_deposit-IsEntry, execute_queue_withdrawal-IsEntry, execute_dequeue_withdrawal-IsEntry,
  execute_withdraw-IsEntry,
}
use blend_contracts_v.Backstop.TokenMoves.{execute_draw-IsTokenMove, execute_donate-IsTokenMove}

-- A message of a depositor comes from one of the users.
unfoldable pub is_from : List Address → BackstopMessage → Bool
is_from users (deposit_msg from pool amount) = contains users from
is_from users (queue_msg from pool amount) = contains users from
is_from users (dequeue_msg from pool amount) = contains users from
is_from users (withdraw_msg from pool amount) = contains users from
is_from users m = true

-- Messages that go through, each in its own environment and with its own authorizations.
pub data Messages (users : List Address) : BackstopLedger → BackstopLedger → Type 0 where
  none_left : {l : BackstopLedger} → Messages users l l
  then_message :
      {l l₁ l₂ : BackstopLedger} (e : BackstopEnv) (auth : Address → Bool) (m : BackstopMessage)
      → is_from users m ≡ true
      → handle e auth l m ≡ ok l₁
      → Messages users l₁ l₂
      → Messages users l l₂

abbrev pub IsBalanced : List Address → BackstopLedger → Type 0
IsBalanced users l = (pool : Address) → IsSheet users pool l

module _ (users : List Address) (unique : distinct users ≡ true) (e : BackstopEnv)
    (auth : Address → Bool) (l : BackstopLedger) (s : IsBalanced users l) where
  pub handle-IsBalanced :
      (m : BackstopMessage) {l' : BackstopLedger}
      → is_from users m ≡ true
      → handle e auth l m ≡ ok l'
      → IsBalanced users l'
  unfolding handle is_from
  handle-IsBalanced (deposit_msg from pool amount) {l'} member h p =
      panic_if-elim (not (auth from)) _ _ h λ signed h1.
        >>=-elim (execute_deposit e l from pool amount) _ h1 λ (l₁, minted) e1 h2.
          subst (IsSheet users p) (ok-injective h2) (
            IsEntry-IsSheet users unique l l₁ p pool (s p) from member (
              execute_deposit-IsEntry e l from pool amount ((s pool).well from) (s pool).tokens e1))
  handle-IsBalanced (queue_msg from pool amount) {l'} member h p =
      panic_if-elim (not (auth from)) _ _ h λ signed h1.
        >>=-elim (execute_queue_withdrawal e l from pool amount) _ h1 λ (l₁, q) e1 h2.
          subst (IsSheet users p) (ok-injective h2) (
            IsEntry-IsSheet users unique l l₁ p pool (s p) from member (
              execute_queue_withdrawal-IsEntry e l from pool amount ((s pool).well from)
                (s pool).tokens e1))
  handle-IsBalanced (dequeue_msg from pool amount) {l'} member h p =
      panic_if-elim (not (auth from)) _ _ h λ signed h1.
        IsEntry-IsSheet users unique l l' p pool (s p) from member (
          execute_dequeue_withdrawal-IsEntry e l from pool amount ((s pool).well from)
            (s pool).tokens h1)
  handle-IsBalanced (withdraw_msg from pool amount) {l'} member h p =
      panic_if-elim (not (auth from)) _ _ h λ signed h1.
        >>=-elim (execute_withdraw e l from pool amount) _ h1 λ (l₁, paid) e1 h2.
          subst (IsSheet users p) (ok-injective h2) (
            IsEntry-IsSheet users unique l l₁ p pool (s p) from member (
              execute_withdraw-IsEntry e l from pool amount ((s pool).well from) (s pool).tokens
                e1))
  handle-IsBalanced (draw_msg pool amount to) {l'} member h p =
      panic_if-elim (not (auth pool)) _ _ h λ signed h1.
        IsTokenMove-IsSheet users unique l l' p pool (s p)
          (execute_draw-IsTokenMove e l pool amount (s pool).tokens to h1)
  handle-IsBalanced (donate_msg from pool amount) {l'} member h p =
      panic_if-elim (not (auth from)) _ _ h λ signed h1.
        panic_if-elim (not (auth pool)) _ _ h1 λ signed' h2.
          IsTokenMove-IsSheet users unique l l' p pool (s p)
            (execute_donate-IsTokenMove e l pool amount (s pool).tokens from h2)
  handle-IsBalanced distribute_msg member h p = absurd (cc)
  handle-IsBalanced drop_msg member h p = absurd (cc)
  handle-IsBalanced (gulp_msg pool) member h p = absurd (cc)
  handle-IsBalanced (remove_reward_msg pool) member h p = absurd (cc)
  handle-IsBalanced (add_reward_msg a r) member h p = absurd (cc)
  handle-IsBalanced (claim_msg from pools out) member h p = absurd (cc)

-- Through any messages to the backstop that go through, each in its own environment and with its
-- own authorizations, and whose depositors are among distinct users: if for every pool the shares
-- and the queued shares are the sums of the users', and no pool's tokens, depositor's shares or
-- queue entry are negative, then the same holds after them.
pub Messages-IsBalanced :
    (users : List Address) {l l' : BackstopLedger}
    → distinct users ≡ true
    → Messages users l l'
    → IsBalanced users l
    → IsBalanced users l'
Messages-IsBalanced users unique none_left s = s
Messages-IsBalanced users unique (then_message {l} e auth m from h rest) s =
    Messages-IsBalanced users unique rest (handle-IsBalanced users unique e auth l s m from h)
