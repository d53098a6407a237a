-- ===== src/Examples/Searching.antt =====
-- The theorems on native search at concrete values.
use cpa_plugin_key_policy.Base.{
  ◌-◌, ◌*◌, nat_eq, ◌≡◌, ◌↔◌, refl, arith, Bool, true, false, none, some, [], ◌∷◌, map, All,
  string_eq,
}
use cpa_plugin_key_policy.Dict.Entries.{Has}
use cpa_plugin_key_policy.Native.{ChannelRecord, ran_tool, skipped_tool, hour, confirmed}
use cpa_plugin_key_policy.Native.Decide.{Credential, World, decide_model, is_native, decide}
use cpa_plugin_key_policy.Native.Decide.Choice.{IsChosen, decide_model-IsChosen}
use cpa_plugin_key_policy.Native.Exclude.{Manager, Pair, Exclusion, pair_of, open_models}
use cpa_plugin_key_policy.Native.Exclude.Moving.{Planned, plan}
use cpa_plugin_key_policy.Native.Exclude.Planning.{MayExclude}
use cpa_plugin_key_policy.Native.Exclude.Serving.{HasUsableBut, plan-HasUsableBut}
use cpa_plugin_key_policy.Examples.{noon}

abbrev searching : Credential
searching = record {
  auth_index = "a";
  models = some ("gpt" ∷ []);
  disabled = false;
  in_config = true;
  excluded = [];
}

-- a channel that never searches
abbrev idle : Credential
idle = record searching { auth_index = "b" }

abbrev found : ChannelRecord
found = record {
  probes = record { at = noon - hour; model = "gpt"; result = ran_tool } ∷ [];
  pairs = some (
      (
        "gpt",
        record {
          no_search = 0;
          last_probe = noon - hour;
          last_result = some ran_tool;
          rejection = none;
        },
      )
      ∷ []);
  legacy_rejection = none;
  not_serving = [];
  served = [];
}

-- what two probes of it say
abbrev ignoring : ChannelRecord
ignoring = record {
  probes =
      record { at = noon - 2 * hour; model = "gpt"; result = skipped_tool }
      ∷ record { at = noon - hour; model = "gpt"; result = skipped_tool }
      ∷ [];
  pairs = some (
      (
        "gpt",
        record {
          no_search = 2;
          last_probe = noon - hour;
          last_result = some skipped_tool;
          rejection = none;
        },
      )
      ∷ []);
  legacy_rejection = none;
  not_serving = [];
  served = [];
}

abbrev world : World
world = record {
  settings = record {
    enabled = true;
    require_all = true;
    auto_exclude = true;
    excluded_models = [];
    disabled_channels = [];
    interval_hours = 6;
  };
  credentials = searching ∷ idle ∷ [];
  records = ("a", found) ∷ ("b", ignoring) ∷ [];
  excludable = λ index model. true;
  lower = λ c. c;
  now = noon;
}

decide_model-IsChosen_example :
    (is_native (decide_model world "gpt").mode ≡ true) ↔ IsChosen world "gpt"
decide_model-IsChosen_example = decide_model-IsChosen world "gpt"

abbrev manager : Manager
manager = record {
  settings = world.settings;
  credentials = world.credentials;
  records = world.records;
  snapshot = decide world ("gpt" ∷ []);
  started = true;
  started_at = noon - hour;
  listing_failed = false;
  listed_at = noon;
  edited_at = 0;
  lower = world.lower;
}

plan-HasUsableBut_example :
    All
      (λ p.
        p.exclude ≡ true
        → (e : Exclusion) × Has (p.key, e) (open_models manager noon manager.snapshot.models [])
          × MayExclude manager noon e
          × (confirmed (pair_of manager (e.auth_index, e.model)) ≡ true
              → HasUsableBut world e.model e.auth_index world.credentials))
      (plan manager noon []).1
plan-HasUsableBut_example =
    plan-HasUsableBut world ("gpt" ∷ []) manager noon [] (omega arith) refl refl

-- the model is taken off the channel that never searches
abbrev planned_of : Planned → Pair × Bool
planned_of p = (p.key, p.exclude)

plan_run : map planned_of (plan manager noon []).1 ≡ (("b", "gpt"), true) ∷ []
unfolding plan decide cpa_plugin_key_policy.Dict.get cpa_plugin_key_policy.Dict.exists
    cpa_plugin_key_policy.Dict.put
plan_run = refl
