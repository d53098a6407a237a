-- ===== src/Persistence/Loading/Flushed.antt =====
-- What a flush writes passes the checks of `LoadUsage` of internal/policy/persistence.go.
use cpa_plugin_key_policy.Base.{
  ◌<◌, ◌≡◌, ◌≢◌, ◌↔◌, refl, sym, ap, ◌∙◌, Bool, true, false, not, ◌&&◌, Option, none, some, List,
  [], ◌∷◌, String, ltb, ◌==◌, nat_eq, string_eq, get_or, All, inl, inr, arith,
}
use cpa_plugin_key_policy.Base.Results.{ok}
use cpa_plugin_key_policy.Dict.{Dict, get, keep}
use cpa_plugin_key_policy.Dict.Entries.{All-keep, All-map_values}
use cpa_plugin_key_policy.Text.{blank, trim_space}
use cpa_plugin_key_policy.Calendar.{Date, Location}
use cpa_plugin_key_policy.Ledger.{Ledger, KeyUsage, Models, Days, no_usage}
use cpa_plugin_key_policy.Ledger.Views.{usage_of}
use cpa_plugin_key_policy.Ledger.Flush.{
  LiveKey, later_day, closed_day, live_key, live_snapshot, history_snapshot, plan_cut,
  planned_through,
}
use cpa_plugin_key_policy.Persistence.{
  LiveFile, HistoryFile, UsageDataset, dataset, merge_usage, Files, live_file, history_file,
}
use cpa_plugin_key_policy.Persistence.Recovery.{SameUsage, file_through}
use cpa_plugin_key_policy.Persistence.Flushing.{
  IsNamed, Recovers, InSync, flush_cut, plan_cut-cases, flush_live_plan, flush_history_plan,
}
use cpa_plugin_key_policy.Persistence.Cuts.{flush_cut-Recovers}
use cpa_plugin_key_policy.Persistence.Loading.{
  validate_day, validate_days, cycles_error, balance_ok, checked_key, check_live_key,
  check_live_keys, check_history_key, check_history_keys, ends_by, first_error, decode_live,
  decode_live_in, header_error, decode_history, load_history, load_files, load_usage, merged_or,
  answer_unless,
}

-- what `LoadUsage` checks of a key
pub record IsSound (loc : Location) (id : String) (usage : KeyUsage) : Type 0 where
  pub named : blank id ≡ false
  pub cycled : cycles_error loc usage.cycles ≡ none
  pub balanced : balance_ok usage.balance ≡ true
  pub dated : validate_days usage.days ≡ true

-- a day that `validateDays` accepts
abbrev IsDay : Date × Models → Type 0
IsDay x = (not (x.0 == 0) && validate_day x.1) ≡ true

validate_days-All : (days : Days) → (validate_days days ≡ true) ↔ All IsDay days
unfolding validate_days
validate_days-All [] = (λ _. tt, λ _. refl)
validate_days-All ((date, models) ∷ days) =
    let (to, from) = validate_days-All days in
    (λ h. (ground arith, to (ground arith)), λ h. ground (arith, h.0, from h.1))

validate_days-keep :
    (P : Date → Models → Bool) (days : Days)
    → validate_days days ≡ true
    → validate_days (keep P days) ≡ true
validate_days-keep P days h =
    (validate_days-All (keep P days)).1
      (All-keep IsDay IsDay P days (λ date models _ ok. ok) ((validate_days-All days).0 h))

ends_by-All :
    (through : Date) (days : Days)
    → All (λ (x : Date × Models). ltb through x.0 ≡ false) days
    → ends_by through days ≡ true
unfolding ends_by
ends_by-All through [] h = refl
ends_by-All through ((date, models) ∷ days) h = rw h.0 (ends_by-All through days h.1)

All-Unit : {A : Type 0} (xs : List A) → All (λ (x : A). Unit {0}) xs
All-Unit [] = tt
All-Unit (x ∷ xs) = (tt, All-Unit xs)

ends_by-keep :
    (through : Date) (days : Days) → ends_by through (keep (closed_day through) days) ≡ true
ends_by-keep through days = ends_by-All through (keep (closed_day through) days) (
    All-keep (λ (x : Date × Models). Unit {0}) (λ (x : Date × Models). ltb through x.0 ≡ false)
      (closed_day through) days (λ date models kept _. ground (arith, kept)) (All-Unit days))

-- a key that `decodeLive` accepts, and one that `decodeHistory` does
abbrev IsLive : Location → String × LiveKey → Type 0
IsLive loc x = check_live_key loc x.0 x.1 ≡ none

abbrev IsHistory : Date → String × Days → Type 0
IsHistory through x = check_history_key through x.0 x.1 ≡ none

check_live_keys-All :
    (loc : Location) (keys : Dict String LiveKey)
    → All (IsLive loc) keys
    → check_live_keys loc keys ≡ none
unfolding check_live_keys first_error
check_live_keys-All loc [] h = refl
check_live_keys-All loc ((id, key) ∷ keys) h = rw h.0 (check_live_keys-All loc keys h.1)

check_history_keys-All :
    (through : Date) (keys : Dict String Days)
    → All (IsHistory through) keys
    → check_history_keys through keys ≡ none
unfolding check_history_keys first_error
check_history_keys-All through [] h = refl
check_history_keys-All through ((id, days) ∷ keys) h =
    rw h.0 (check_history_keys-All through keys h.1)

-- the keys of a ledger that `LoadUsage` accepts
abbrev AreSoundIn : Location → String × KeyUsage → Type 0
AreSoundIn loc x = IsSound loc x.0 x.1

abbrev pub AreSound : Location → Ledger → Type 0
AreSound loc l = All (AreSoundIn loc) l.entries

live_key-IsSound :
    (loc : Location) (through : Date) (id : String) (usage : KeyUsage)
    → IsSound loc id usage
    → IsSound loc id (live_key through usage)
live_key-IsSound loc through id usage s = record {
  named = s.named;
  cycled = s.cycled;
  balanced = s.balanced;
  dated = validate_days-keep (later_day through) usage.days s.dated;
}

check_live_key-IsSound :
    (loc : Location) (id : String) (key : LiveKey)
    → IsSound loc id key
    → check_live_key loc id key ≡ none
unfolding check_live_key checked_key
check_live_key-IsSound loc id key s = rw (s.named, s.cycled, s.balanced, s.dated) refl

check_history_key-IsSound :
    (loc : Location) (through : Date) (id : String) (usage : KeyUsage)
    → IsSound loc id usage
    → check_history_key through id (keep (closed_day through) usage.days) ≡ none
unfolding check_history_key
check_history_key-IsSound loc through id usage s =
    rw
      (
        s.named,
        validate_days-keep (closed_day through) usage.days s.dated,
        ends_by-keep through usage.days,
      )
      refl

live_file-AreSound :
    (loc : Location) (dataset_id : String) (t t0 : Date) (l : Ledger)
    → AreSound loc l
    → check_live_keys loc (live_file dataset_id l.timezone t (live_snapshot t0 l)).keys ≡ none
unfolding live_file live_snapshot
live_file-AreSound loc dataset_id t t0 l h = check_live_keys-All loc _ (
    All-keep (AreSoundIn loc) (IsLive loc) _ _ (λ id key _ s. check_live_key-IsSound loc id key s)
      (All-map_values (AreSoundIn loc) (AreSoundIn loc) _ _
        (λ id usage s. live_key-IsSound loc t id usage s)
        (All-map_values (AreSoundIn loc) (AreSoundIn loc) _ l.entries
          (λ id usage s. live_key-IsSound loc t0 id usage s) h)))

history_snapshot-AreSound :
    (loc : Location) (through : Date) (l : Ledger)
    → AreSound loc l
    → check_history_keys through (history_snapshot through l) ≡ none
unfolding history_snapshot
history_snapshot-AreSound loc through l h = check_history_keys-All through _ (
    All-keep (IsHistory through) (IsHistory through) _ _ (λ id days _ fine. fine)
      (All-map_values (AreSoundIn loc) (IsHistory through) _ l.entries
        (λ id usage s. check_history_key-IsSound loc through id usage s) h))

-- a history file that `decodeHistory` accepts
abbrev pub IsReadable : Option HistoryFile → Type 0
IsReadable none = Unit
IsReadable (some file) = (file.through ≢ 0) × (check_history_keys file.through file.days ≡ none)

-- what reading the files gives: no error, and what the ledger shows
abbrev pub Loads : (String → Option Location) → Ledger → Files → Type 0
Loads zones l files =
    (read : UsageDataset) × (load_usage zones files ≡ ok read)
    × ((id : String) → SameUsage (usage_of id l) (get_or (get id read.keys) no_usage))

decode_history-IsReadable :
    (file : HistoryFile)
    → trim_space file.dataset_id ≡ file.dataset_id
    → (file.dataset_id == "") ≡ false
    → IsReadable (some file)
    → decode_history file ≡ ok file
unfolding decode_history header_error first_error answer_unless
decode_history-IsReadable file trim titled (dated, fine) =
    let dated' : (file.through == 0) ≡ false = ground (arith, dated) in
    rw (trim, titled, dated', fine) refl

load_history-IsReadable :
    (live : LiveFile) (file : Option HistoryFile)
    → trim_space live.dataset_id ≡ live.dataset_id
    → (live.dataset_id == "") ≡ false
    → IsNamed live.dataset_id file
    → file_through file ≡ live.history_through
    → IsReadable file
    → load_history live file ≡ ok file
unfolding load_history
load_history-IsReadable live none trim titled named reaches fine = rw (← reaches) refl
load_history-IsReadable live (some file) trim titled named reaches fine =
    rw
      (decode_history-IsReadable file (ap trim_space named ∙ trim ∙ sym named)
        (ap (λ name. name == "") named ∙ titled) fine)
      refl

module _ (zones : String → Option Location) (loc : Location) (dataset_id : String) (l : Ledger)
    (known : zones l.timezone ≡ some loc) (zoned : (l.timezone == "") ≡ false)
    (trim : trim_space dataset_id ≡ dataset_id) (titled : (dataset_id == "") ≡ false)
    (sound : AreSound loc l) where
  decode_live-live_file :
      (t t0 : Date)
      → let live = live_file dataset_id l.timezone t (live_snapshot t0 l) in
        decode_live zones live ≡ ok live
  unfolding decode_live decode_live_in header_error answer_unless live_file
  decode_live-live_file t t0 =
      rw (trim, titled, zoned, known, live_file-AreSound loc dataset_id t t0 l sound, trim) refl

  -- files that give the ledger back load, where the live one was just written
  Recovers-Loads :
      (t t0 : Date) (file : Option HistoryFile)
      → let live = live_file dataset_id l.timezone t (live_snapshot t0 l) in
        load_history live file ≡ ok file
        → (l' : Ledger) → Recovers l' (record { live = some live; history = file })
        → Loads zones l' (record { live = some live; history = file })
  unfolding load_usage load_files merged_or
  Recovers-Loads t t0 file readable l' r =
      let live = live_file dataset_id l.timezone t (live_snapshot t0 l) in
      let written : some live ≡ some r.live = r.written in
      let same : live ≡ r.live = cc in
      let merges : merge_usage live file ≡ dataset r.read =
        ap (λ x. merge_usage x file) same ∙ r.merges in
      (r.read, rw (decode_live-live_file t t0, readable, merges) refl, r.shows)

  history_file-readable :
      (yesterday : Date)
      → 0 < yesterday
      → let through = planned_through yesterday l in
        let file = some (history_file dataset_id through (history_snapshot through l)) in
        load_history
          (live_file dataset_id l.timezone through (live_snapshot l.history_through l))
          file
        ≡ ok file
  unfolding history_file live_file
  history_file-readable yesterday pos =
      let through = planned_through yesterday l in
      load_history-IsReadable
        (live_file dataset_id l.timezone through (live_snapshot l.history_through l))
        (some (history_file dataset_id through (history_snapshot through l))) trim titled refl refl
        (λ z. absurd (omega (arith, z)), history_snapshot-AreSound loc through l sound)

  -- When a prepared ledger in a known zone is in step with its history file, its keys pass the
  -- checks of a dataset, its dataset's name is trimmed and not empty, and a history file that is
  -- there passes the checks of a load, a cut on a day after 0 that plans anything and whose writes
  -- succeed leaves files that load without an error, as a dataset that shows of every key what the
  -- ledger shows.
  pub flush_cut-Loads :
      (yesterday : Date) (files : Files)
      → 0 < yesterday
      → InSync dataset_id l files.history
      → IsReadable files.history
      → (plan_cut yesterday l).1 ≢ none
      → let (l', files') = flush_cut dataset_id true true yesterday l files in Loads zones l' files'
  flush_cut-Loads yesterday files pos s fine planned =
      let r = flush_cut-Recovers dataset_id yesterday l files true s (inl refl) planned in
      elim (plan_cut-cases yesterday l) [
        | inl idle ↦ absurd (planned (rw idle))
        | inr (inl closes) ↦
            let files_eq = flush_history_plan dataset_id true l files yesterday true in
            rw (closes, files_eq)
              (Recovers-Loads (planned_through yesterday l) l.history_through _
                (history_file-readable yesterday pos) _ (rw (closes, files_eq) at r))
        | inr (inr (fresh, cut)) ↦
            let files_eq = flush_live_plan dataset_id true l files true in
            rw (cut, files_eq)
              (Recovers-Loads l.history_through l.history_through files.history
                (unfold live_file in
                  load_history-IsReadable
                    (live_file dataset_id l.timezone l.history_through
                      (live_snapshot l.history_through l))
                    files.history trim titled s.named s.reaches fine)
                _ (rw (cut, files_eq) at r))
      ]
