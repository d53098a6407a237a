-- ===== src/Native/Decide.antt =====
-- How Codex searches with each model: `decide`, `serves` and `servesKnown` of
-- internal/search/native/decide.go, and `Credential` and `Settings` of the package.
pub mod Choice
use cpa_plugin_key_policy.Base.{
  ℕ, Bool, true, false, not, ◌&&◌, ◌||◌, Option, none, some, is_some, get_or, List, [], ◌∷◌, ◌++◌,
  map, any, String, string_eq, ◌==◌, if◌then◌else◌,
}
use Prim.Native.Char.{Char}
use cpa_plugin_key_policy.Dict.{Dict, get}
use cpa_plugin_key_policy.Text.{to_lower}
use cpa_plugin_key_policy.Calendar.{Time}
use cpa_plugin_key_policy.Native.{
  PairRecord, ChannelRecord, State, unknown, is_supported, is_disabled, confirmed, pair,
}
use cpa_plugin_key_policy.Native.States.{classify, classify_for}

-- what `decide` and the exclusions read of a `Credential`; a nil list of models is none
pub record Credential : Type 0 where
  pub auth_index : String
  pub models : Option (List String)
  pub disabled : Bool
  pub in_config : Bool
  pub excluded : List String

-- `Settings`
pub record Settings : Type 0 where
  pub enabled : Bool
  pub require_all : Bool
  pub auto_exclude : Bool
  pub excluded_models : List String
  pub disabled_channels : List String
  pub interval_hours : ℕ

-- `Mode`
pub data Mode : Type 0 where
  native fallback excluded off : Mode

-- `ModelDecision.Reason`; empty is none
pub data Reason : Type 0 where
  no_channel no_usable incomplete : Reason

-- `Gap`
pub record Gap : Type 0 where
  pub auth_index : String
  pub state : State

-- `ModelDecision`
pub record ModelDecision : Type 0 where
  pub model : String
  pub mode : Mode
  pub usable : List String
  pub gaps : List Gap
  pub reason : Option Reason

abbrev pub has : List String → String → Bool
has values value = any (λ v. v == value) values

-- `serves`
unfoldable pub serves : Credential → Option ChannelRecord → String → Bool
serves c rec model = elim c.models [
  | some models ↦ has models model
  | none ↦ elim rec [ none ↦ true | some r ↦ not (has r.not_serving model) ]
]

-- `servesKnown`
unfoldable pub serves_known : Credential → Option ChannelRecord → String → Bool
serves_known c rec model = elim c.models [
  | some models ↦ has models model
  | none ↦ elim rec [ none ↦ false | some r ↦ has r.served model ]
]

-- the evidence about each channel
abbrev pub Records : Type 0
Records = Dict String ChannelRecord

-- what a decision is made from: the settings, the credentials, the evidence, whether a channel can be
-- taken off a model, the folding of case of a character, and the clock
pub record World : Type 0 where
  pub settings : Settings
  pub credentials : List Credential
  pub records : Records
  pub excludable : String → String → Bool
  pub lower : Char → Char
  pub now : Time

abbrev pub record_of : World → Credential → Option ChannelRecord
record_of w c = get c.auth_index w.records

abbrev pub is_off : World → Credential → Bool
is_off w c = has w.settings.disabled_channels c.auth_index

-- the state of a channel for a model
unfoldable pub state_of : World → String → Credential → State
unfolding classify_for
state_of w model c = classify_for (record_of w c) model (is_off w c) w.settings.interval_hours w.now

abbrev pub takes_part : World → String → Credential → Bool
takes_part w model c = not (c.disabled || not (serves c (record_of w c) model))

-- a channel that the model can rely on
unfoldable pub is_usable : World → String → Credential → Bool
unfolding state_of serves_known
is_usable w model c = is_supported (state_of w model c) && serves_known c (record_of w c) model

-- the state of a gap: a channel that was never seen serving the model is unknown
unfoldable pub gap_state : World → String → Credential → State
unfolding state_of
gap_state w model c = if is_supported (state_of w model c) then unknown else state_of w model c

-- a gap that `RequireAll` does not count
unfoldable pub is_excused : World → String → Credential → Bool
unfolding gap_state pair confirmed
is_excused w model c =
    is_disabled (gap_state w model c)
    || confirmed (pair model (record_of w c)) && w.excludable c.auth_index model

-- the loop over the credentials: the usable ones
unfoldable pub usable_of : World → String → List Credential → List String
unfolding serves is_usable
usable_of w model [] = []
usable_of w model (c ∷ cs) =
    let rest = usable_of w model cs in
    if takes_part w model c && is_usable w model c then c.auth_index ∷ rest else rest

-- the others that serve the model
unfoldable pub gaps_of : World → String → List Credential → List Gap
unfolding serves is_usable gap_state
gaps_of w model [] = []
gaps_of w model (c ∷ cs) =
    let rest = gaps_of w model cs in
    if takes_part w model c && not (is_usable w model c)
    then record { auth_index = c.auth_index; state = gap_state w model c } ∷ rest
    else rest

-- whether every channel that serves the model is usable or excused
unfoldable pub all_supported : World → String → List Credential → Bool
unfolding serves is_usable is_excused
all_supported w model [] = true
all_supported w model (c ∷ cs) =
    (not (takes_part w model c) || is_usable w model c || is_excused w model c)
    && all_supported w model cs

abbrev pub none_in : {A : Type 0} → List A → Bool
none_in [] = true
none_in (_ ∷ _) = false

-- `strings.EqualFold`
abbrev pub equal_fold : (Char → Char) → String → String → Bool
equal_fold lower a b = to_lower lower a == to_lower lower b

abbrev pub is_excluded : World → String → Bool
is_excluded w model = any (λ m. equal_fold w.lower m model) w.settings.excluded_models

-- the switch of `decide`, by whether native search is on, the model is excluded, no channel is
-- usable, there is no gap, every channel is needed, and every one is good
unfoldable pub mode_by : Bool → Bool → Bool → Bool → Bool → Bool → Mode × Option Reason
mode_by on is_out none_usable none_gap all_needed all_good =
    if not on
    then (off, none)
    else if is_out
    then (excluded, none)
    else if none_usable && none_gap
    then (fallback, some no_channel)
    else if none_usable
    then (fallback, some no_usable)
    else if all_needed && not all_good
    then (fallback, some incomplete)
    else (native, none)

-- that switch over a model
unfoldable pub mode_of : World → String → List String → List Gap → Mode × Option Reason
unfolding all_supported mode_by
mode_of w model usable gaps =
    mode_by w.settings.enabled (is_excluded w model) (none_in usable) (none_in gaps)
      w.settings.require_all (all_supported w model w.credentials)

-- `decide` of one model
unfoldable pub decide_model : World → String → ModelDecision
unfolding usable_of gaps_of mode_of
decide_model w model =
    let usable = usable_of w model w.credentials in
    let gaps = gaps_of w model w.credentials in
    let (mode, reason) = mode_of w model usable gaps in
    record { model = model; mode = mode; usable = usable; gaps = gaps; reason = reason }

abbrev pub is_native : Mode → Bool
is_native native = true
is_native fallback = false
is_native excluded = false
is_native off = false

-- `decisions`; its maps to true are lists of their keys
pub record Decisions : Type 0 where
  pub enabled : Bool
  pub native_models : List String
  pub candidates : List String
  pub strip : List String
  pub refused : List (String × String)
  pub models : List ModelDecision
  pub states : List (String × State)

unfoldable pub native_of : List ModelDecision → List String
native_of [] = []
native_of (d ∷ ds) = let rest = native_of ds in if is_native d.mode then d.model ∷ rest else rest

strip_of : World → List Credential → List String
strip_of w [] = []
strip_of w (c ∷ cs) =
    let rest = strip_of w cs in
    if w.settings.enabled && is_off w c then c.auth_index ∷ rest else rest

refusals : String → Dict String PairRecord → List (String × String)
refusals index [] = []
refusals index ((model, p) ∷ pairs) =
    let rest = refusals index pairs in if is_some p.rejection then (index, model) ∷ rest else rest

refused_of : World → List Credential → List (String × String)
unfolding refusals
refused_of w [] = []
refused_of w (c ∷ cs) =
    let rest = refused_of w cs in
    if not w.settings.enabled then rest else elim (record_of w c) [
      | none ↦ rest
      | some r ↦ refusals c.auth_index (get_or r.pairs []) ++ rest
    ]

-- `decide`
unfoldable pub decide : World → List String → Decisions
unfolding decide_model native_of strip_of refused_of classify
decide w candidates =
    let models = map (decide_model w) candidates in
    record {
      enabled = w.settings.enabled;
      native_models = native_of models;
      candidates = candidates;
      strip = strip_of w w.credentials;
      refused = refused_of w w.credentials;
      models = models;
      states =
          map
            (λ (c : Credential).
              (c.auth_index, classify (record_of w c) (is_off w c) w.settings.interval_hours w.now))
            w.credentials;
    }
