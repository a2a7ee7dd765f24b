-- ===== src/Worker/Lowest.antt =====
-- reconciler.go, checkBroadcastOutcomes: the row that is asked about for each wallet.
use chain_route.Prelude.{
  ℕ, String, Bool, ◌&&◌, Option, none, some, List, [], ◌∷◌, ◌≡◌, arith, ◌==◌, eq_iff, ltb,
  if◌then◌else◌, is_some, select,
}
use mathlib.Core.Option
use chain_route.Payment.{Execution}
use chain_route.Db.Table.{find}
use chain_route.Store.Executions.{min_nonce}
use chain_route.Worker.Reconciler.{keep_lowest, lowest_by_wallet}

abbrev pub execution_wallet : Execution → String
execution_wallet e = e.wallet_address

abbrev pub nonce_of : Execution → ℕ
nonce_of e = e.nonce

-- Broadcast from the wallet.
abbrev pub is_broadcast_by : String → Execution → Bool
is_broadcast_by wallet e = is_some e.broadcast_at && e.wallet_address == wallet

abbrev lower : Option ℕ → Option ℕ → Option ℕ
lower none b = b
lower (some a) none = some a
lower (some a) (some b) = some (if ltb a b then a else b)

nonce-keep_lowest :
    (wallet : String) (c : Execution) (es : List Execution)
    → Option.map nonce_of (find execution_wallet wallet (keep_lowest c es)) ≡ (
        if c.wallet_address == wallet
        then lower (Option.map nonce_of (find execution_wallet wallet es)) (some c.nonce)
        else Option.map nonce_of (find execution_wallet wallet es))
unfolding find keep_lowest
nonce-keep_lowest wallet c [] = ground arith
nonce-keep_lowest wallet c (e ∷ es) = ground (
  arith,
  eq_iff e.wallet_address c.wallet_address,
  eq_iff e.wallet_address wallet,
  eq_iff c.wallet_address wallet,
  nonce-keep_lowest wallet c es,
)

nonce-lowest_by_wallet :
    (wallet : String) (cs acc : List Execution)
    → Option.map nonce_of (find execution_wallet wallet (lowest_by_wallet cs acc))
      ≡ lower
          (Option.map nonce_of (find execution_wallet wallet acc))
          (min_nonce (select (is_broadcast_by wallet) cs))
unfolding lowest_by_wallet
nonce-lowest_by_wallet wallet [] acc = ground arith
nonce-lowest_by_wallet wallet (c ∷ cs) acc = ground (
  arith,
  nonce-keep_lowest wallet c acc,
  nonce-lowest_by_wallet wallet cs (if is_some c.broadcast_at then keep_lowest c acc else acc),
)

-- The row that is kept for a wallet has the lowest nonce of the wallet's candidates that were
-- broadcast, and there is none exactly if there is no such candidate.
pub nonce-lowest :
    (wallet : String) (candidates : List Execution)
    → Option.map nonce_of (find execution_wallet wallet (lowest_by_wallet candidates []))
      ≡ min_nonce (select (is_broadcast_by wallet) candidates)
unfolding find
nonce-lowest wallet candidates = ground (arith, nonce-lowest_by_wallet wallet candidates [])
