-- ===== src/Balance.antt =====
-- A prepaid key's money: the types and `validate` of internal/policy/balance.go. The adjustment is
-- in Ledger/Adjust.antt.
use cpa_plugin_key_policy.Base.{ℕ, Bool, true, not, ◌&&◌, List, [], ◌∷◌, String, length, leb}
use cpa_plugin_key_policy.Int64.{Int64}
use cpa_plugin_key_policy.Text.{blank}

-- `BalanceRequest`
pub record BalanceRequest : Type 0 where
  pub id : String
  pub amount_nano : Int64
  pub balance_nano : Int64

pub record Balance : Type 0 where
  pub nano : Int64
  pub net_credited_nano : Int64
  pub requests : List BalanceRequest

-- `&Balance{}`
abbrev pub empty_balance : Balance
empty_balance = record { nano = 0; net_credited_nano = 0; requests = [] }

-- `balanceRequestsKept`
abbrev pub balance_requests_kept : ℕ
balance_requests_kept = 64

named : List BalanceRequest → Bool
named [] = true
named (request ∷ requests) = not (blank request.id) && named requests

-- `Balance.validate`: whether it returns nil
unfoldable pub validate_balance : Balance → Bool
unfolding named
validate_balance b = leb (length b.requests) balance_requests_kept && named b.requests
