-- ===== src/Ledger/Periods.antt =====
-- Opening and forgetting a key's periods: `openCyclesLocked`, `syncCycles`, `forgetKey` and
-- `currentCyclesLocked` of internal/policy/ledger.go. Of a `KeyConfig` they read its id and the
-- instant of its creation.
pub mod Forgetting
use cpa_plugin_key_policy.Base.{
  ℕ, ◌+◌, ◌%◌, ltb, Bool, true, false, not, ◌&&◌, ◌||◌, Option, none, some, List, [], ◌∷◌, String,
  string_eq, nat_eq, ◌==◌, if◌then◌else◌, get_or, is_some, length, any,
}
use cpa_plugin_key_policy.Dict.{Dict, get, put, remove, keep, map_values, sum}
use cpa_plugin_key_policy.Int64.{Int64, modulus}
use cpa_plugin_key_policy.Calendar.{Time}
use cpa_plugin_key_policy.Cycle.{Cycles, initial, used, new_cycles, advance_cycles}
use cpa_plugin_key_policy.Balance.{Balance, empty_balance}
use cpa_plugin_key_policy.Ledger.{Ledger, KeyUsage, no_usage, mark_dirty}

-- what the ledger reads of a `KeyConfig`
pub record KeyBirth : Type 0 where
  pub id : String
  pub created_at : Time

abbrev mark_if : Bool → Ledger → Ledger
mark_if changed l = if changed then mark_dirty l else l

abbrev store_usage : String → KeyUsage → Ledger → Ledger
store_usage id usage l = record l { entries = put id usage l.entries }

-- the periods of a key, opened where it has none, and whether they were opened
unfoldable pub opened_cycles : KeyBirth → Time → Ledger → Option Cycles → Cycles × Bool
opened_cycles key now l (some cycles) = (cycles, false)
opened_cycles key now l none =
    (new_cycles l.location (if key.created_at == 0 then now else key.created_at) initial, true)

-- `openCyclesLocked`
unfoldable pub open_cycles : KeyBirth → Time → Ledger → Ledger
unfolding opened_cycles mark_dirty
open_cycles key now l =
    let usage = get_or (get key.id l.entries) no_usage in
    let (cycles, opened) = opened_cycles key now l usage.cycles in
    let (current, changed) = advance_cycles l.location now cycles in
    mark_if changed (mark_if opened (store_usage key.id (record usage { cycles = some current }) l))

unfoldable pub open_all : List KeyBirth → Time → Ledger → Ledger
unfolding open_cycles
open_all [] now l = l
open_all (key ∷ keys) now l = open_all keys now (open_cycles key now l)

abbrev is_known : List KeyBirth → String → Bool
is_known keys id = any (λ (key : KeyBirth). key.id == id) keys

abbrev pub holds_periods : KeyUsage → Bool
holds_periods usage = is_some usage.cycles || is_some usage.balance

-- an entry of an id that the state file does not hold, in the second loop of `syncCycles`
unfoldable pub forget_unknown : List KeyBirth → String → KeyUsage → KeyUsage
forget_unknown keys id usage =
    if is_known keys id || not (holds_periods usage)
    then usage
    else record usage { cycles = none; balance = none }

-- the entries that the second loop of `syncCycles` deletes
unfoldable pub emptied : List KeyBirth → String → KeyUsage → Bool
emptied keys id usage =
    not (is_known keys id || not (holds_periods usage)) && length usage.days == 0

unknown_count : List KeyBirth → Dict String KeyUsage → ℕ
unknown_count keys [] = 0
unknown_count keys ((id, usage) ∷ m) =
    let rest = unknown_count keys m in
    if is_known keys id || not (holds_periods usage) then rest else rest + 1

-- `syncCycles`; every entry that is forgotten marks the ledger dirty
unfoldable pub sync_cycles : List KeyBirth → Time → Ledger → Ledger
unfolding open_all forget_unknown emptied unknown_count
sync_cycles keys now l =
    let l' = open_all keys now l in
    let marks = unknown_count keys l'.entries in
    record l' {
      entries =
          map_values (forget_unknown keys)
            (keep (λ id usage. not (emptied keys id usage)) l'.entries);
      dirty = l'.dirty || ltb 0 marks;
      revision = (l'.revision + marks) % modulus;
    }

-- the amounts that `forgetKey` reports
pub record Forgotten : Type 0 where
  pub daily : Int64
  pub weekly : Int64
  pub monthly : Int64
  pub balance : Int64

abbrev pub nothing_forgotten : Forgotten
nothing_forgotten = record { daily = 0; weekly = 0; monthly = 0; balance = 0 }

held_by : Ledger → Time → Option Cycles → Int64 → Forgotten
held_by l now none money = record nothing_forgotten { balance = money }
held_by l now (some cycles) money =
    let c = (advance_cycles l.location now cycles).0 in
    record {
      daily = used c.daily_cycle;
      weekly = used c.weekly_cycle;
      monthly = used c.monthly_cycle;
      balance = money;
    }

-- `forgetKey`
unfoldable pub forget_key : String → Time → Ledger → Ledger × Forgotten
unfolding held_by
forget_key id now l =
    let usage = get_or (get id l.entries) no_usage in
    if not (holds_periods usage) then (l, nothing_forgotten) else (
      mark_dirty (record l {
        entries =
            if length usage.days == 0
            then remove id l.entries
            else put id (record usage { cycles = none; balance = none }) l.entries;
      }),
      held_by l now usage.cycles (get_or usage.balance empty_balance).nano,
    )

rolled : String → Time → Ledger → Option Cycles → Ledger × Cycles
rolled id now l none = (l, new_cycles l.location now initial)
rolled id now l (some cycles) =
    let usage = get_or (get id l.entries) no_usage in
    let (current, changed) = advance_cycles l.location now cycles in
    (mark_if changed (store_usage id (record usage { cycles = some current }) l), current)

-- `currentCyclesLocked`
unfoldable pub current_cycles : String → Time → Ledger → Ledger × Cycles
unfolding rolled
current_cycles id now l = rolled id now l (get_or (get id l.entries) no_usage).cycles
