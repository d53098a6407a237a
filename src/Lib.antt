-- ===== src/Lib.antt =====
-- Verification of the key policy plugin: the accounting, admission and key management of
-- internal/policy, with the JSON scanner of internal/jsonscan and the decisions of
-- internal/search/native.
--
-- The plugin sits in front of an AI gateway. A client's request is authenticated and admitted by its
-- key, and the usage record that the gateway reports afterwards is priced and booked in a ledger,
-- which is flushed to two files. Operators manage the keys. Beside that the plugin decides for which
-- models the gateway's channels search the web themselves.
--
-- Base holds names of the library, Boolean tests and lists over native numbers; Dict is Go's map as
-- an association list; Int64 is int64 as patterns of 64 bits with wrap-around written out, where a
-- value is negative from 2^63 on; Text is what the code uses of package strings, on code points.
--
-- The parts of the program, from the bottom up:
--   Calendar: days and instants, dayStart of internal/policy/cycle.go and the date keys of ledger.go.
--   Bucket, Cycle: the counters of bucket.go and the three quota periods of a key in cycle.go.
--     Cycle/Rolling, Cycle/Usage and Cycle/Validity hold their proofs.
--   Balance, Ledger/Adjust: the prepaid balance of balance.go and its adjustment.
--   Ledger: usageLedger of ledger.go. Its own file has the state, retention and the booking of a
--     record (record_call is `record`); Ledger/Periods opens, synchronises and forgets a key's
--     periods, Ledger/Reset is the manual reset, Ledger/Flush plans a flush and marks it done,
--     Ledger/Journaled books a journalled record (recordJournaled of handoff.go). The other files
--     below Ledger hold proofs: Views what readers see, Eviction and Staleness on retention,
--     Recording and Closing on bookings.
--   Persistence: writeLive, writeHistory and mergeUsage of persistence.go and FlushUsage of store.go.
--     Persistence/Steps has the relation of records and flushes, where records may come between the
--     plan and the end of a flush (Persistence/Meanwhile), Persistence/Adjusting the live file
--     that a balance adjustment writes, Persistence/Loading is LoadUsage with its checks, and
--     Recovery, Flushing, Cuts and Loading/Flushed hold the proofs on what reading the files back
--     gives.
--   Limiter: the per-key rate window of limiter.go.
--   MediaTrace, Tokens, Charging, Billing: billing.go, from trace ids and token counts to billTokens,
--     RecordUsage and ListCost. Money and Price are money.go and price.go.
--   Store: the part of Store in store.go that requests use, the lookups of keys, and keys.go.
--   Quota: quota summaries and denials of ledger.go. Routes: routes.go and ExtractAPIKey of keys.go.
--     Admission: Authenticate, AdmitIntercepted and admit of auth.go.
--   Keys: the checks of a list of keys in config.go; Keys/Normal has their specification.
--   Admin: the management of keys in admin.go. Its own file has the instance, which is the store
--     with its files and the audit log, the rebuilding of the index of hashes and the writing of the
--     state file; Admin/Mutations is applyKeyMutation, Admin/Operations are UpsertKey, DeleteKey,
--     RotateKey and ResetRPM, with keyChanges and PreviewKey in Admin/Changes, and Admin/Operating
--     runs one of them. Admin/Amounts has AdjustBalance and ResetUsageWindow. Index, Planned,
--     Snapshot, Coherence, Refining, Placing, Secrets and Amounts/Adjusting hold proofs.
--   Jsonscan: jsonscan.go over bytes, Members and Elements in Jsonscan/Members, with proofs in
--     Strings, Bounds and Walks.
--   Native: the evidence on a channel of internal/search/native/native.go, with its states of
--     decide.go in Native/States. Native/Decide has the decisions and Native/Exclude the exclusions
--     of exclude.go: Moving is planLocked, Answering what reconcile and keep write. Proofs are in
--     Native/Decide/Choice, Native/Exclude/Planning and Native/Exclude/Serving.
--   Examples: concrete values, and the theorems of the list below applied to them.
--
-- A method that holds a lock is a function of the state that it locks; each call reads the clock
-- once, as the argument now. A Go map is a Dict, a nil pointer none, a pair of a value and an error
-- a sum, an Option or an answer type. Times are nanoseconds from Go's zero Time, which is 0; dates
-- are day numbers, ordered as their texts are, and 0 is the empty text. The write of a file is given
-- by whether it succeeds. FlushUsage frees the ledger's lock between planFlush and markFlushed; what
-- becomes of the ledger meanwhile is an argument of flush_usage. The callbacks that persist an adjustment or a reset are parameters.
--
-- Parameters: zone data is a Location, and IsCalendar says that a midnight that exists, or else the
-- end of the zone in force there, divides the days before from the day and those after. Float64 is a
-- Floats, and IsIeee says of it that conversion, rounding and products of finite nonnegative floats
-- are monotone, that they are exact where the result is representable, and that floats that are
-- numbers are ordered. Case tables and SHA-256 are a Library.
--
-- Fuel: the loop of advanceCyclesLocked (roll in Cycle) runs on fuel now, since every round moves
-- the deadline forward by at least a nanosecond. In Jsonscan the searches of a string literal run on
-- fuel 2n + 2 for the n bytes that are left, since each search that is not the last moves past a
-- byte and each of its inner loops does too; the loop over a container runs on fuel n + 2 and the
-- walks over members and elements on fuel
-- n + 1, since each round moves past a byte. All other loops are structural.
--
-- Not modelled: reconfiguration and the management of prices, the
-- handoff between two instances beyond the entries that are journalled and their booking, reports and
-- statistics, the files of the audit log, the encoding of JSON and file access, the rounds of probes
-- of the native search, and the packages adapt, channel, legacyv6, plugin, pricingmetadata and
-- quality, which take no part in accounting.
pub mod Base
pub mod Dict
pub mod Int64
pub mod Text
pub mod Calendar
pub mod Bucket
pub mod Cycle
pub mod Balance
pub mod Ledger
pub mod Persistence
pub mod Jsonscan
pub mod Keys
pub mod Native
pub mod Limiter
pub mod MediaTrace
pub mod Tokens
pub mod Money
pub mod Price
pub mod Charging
pub mod Store
pub mod Billing
pub mod Quota
pub mod Routes
pub mod Admin
pub mod Admission
pub mod Examples
