-- ===== src/Ledger/Views.antt =====
-- What the ledger shows of a key: what its readers find, with zero values where there is nothing.
use cpa_plugin_key_policy.Base.{String, string_eq, nat_eq, [], get_or}
use cpa_plugin_key_policy.Dict.{get}
use cpa_plugin_key_policy.Calendar.{Date}
use cpa_plugin_key_policy.Bucket.{Bucket, empty_bucket}
use cpa_plugin_key_policy.Ledger.{Ledger, KeyUsage, Models, no_usage}

abbrev pub usage_of : String → Ledger → KeyUsage
usage_of id l = get_or (get id l.entries) no_usage

abbrev pub models_of : String → Date → Ledger → Models
models_of id date l = get_or (get date (usage_of id l).days) []

abbrev pub bucket_of : String → Date → String → Ledger → Bucket
bucket_of id date model l = get_or (get model (models_of id date l)) empty_bucket
