-- ===== src/Admin/Changes.antt =====
-- What the audit log says of a written key: `keyChanges` of internal/policy/admin.go, and
-- `PreviewKey` of internal/policy/keys.go.
use cpa_plugin_key_policy.Base.{
  ℕ, zero, suc, ◌-◌, Bool, true, false, not, Option, none, some, List, [], ◌∷◌, ◌++◌, String,
  string_eq, nat_eq, ◌==◌, if◌then◌else◌, ltb, leb,
}
use cpa_plugin_key_policy.Text.{trim_space, append}
use cpa_plugin_key_policy.Money.{Floats}
use cpa_plugin_key_policy.Store.{KeyConfig, balance_mode}
use cpa_plugin_key_policy.Admin.{Value, text, flag, number, amount}

unfoldable pub text_length : String → ℕ
text_length String.[] = 0
text_length (String.◌∷◌ c s) = suc (text_length s)

text_take : ℕ → String → String
text_take zero s = ""
text_take (suc n) String.[] = ""
text_take (suc n) (String.◌∷◌ c s) = String.◌∷◌ c (text_take n s)

text_drop : ℕ → String → String
text_drop zero s = s
text_drop (suc n) String.[] = ""
text_drop (suc n) (String.◌∷◌ c s) = text_drop n s

same_flag : Bool → Bool → Bool
same_flag true b = b
same_flag false b = not b

-- the first `n` and the last `m` characters of a text
ends : ℕ → ℕ → String → String
unfolding text_length text_take text_drop
ends n m s = append (text_take n s) (append "..." (text_drop (text_length s - m) s))

-- `PreviewKey`, on a key of ASCII characters, whose length in bytes is that in characters
unfoldable pub preview_key : String → String
unfolding ends
preview_key raw =
    let key = trim_space raw in
    if leb (text_length key) 8
    then "..."
    else if ltb (text_length key) 24
    then ends 3 2 key
    else ends 7 5 key

module _ {fl : Floats} where
  -- `KeyConfig.Mode`
  unfoldable pub mode : KeyConfig fl → String
  mode key = if balance_mode key then "balance" else "cycle"

  -- `record` of `keyChanges`, with whether the values are equal
  changed : String → Bool → Value fl → Value fl → List (String × Value fl × Value fl)
  changed field same from to = if same then [] else (field, from, to) ∷ []

  -- the changes from one key to another
  unfoldable pub changes_between : KeyConfig fl → KeyConfig fl → List (String × Value fl × Value fl)
  unfolding changed same_flag mode
  changes_between a b =
      changed "name" (a.name == b.name) (text a.name) (text b.name)
      ++ changed "enabled" (same_flag a.enabled b.enabled) (flag a.enabled) (flag b.enabled)
      ++ changed "rpm" (a.rpm == b.rpm) (number a.rpm) (number b.rpm)
      ++ changed "daily_limit_usd" (fl.equal a.daily_limit_usd b.daily_limit_usd)
          (amount a.daily_limit_usd) (amount b.daily_limit_usd)
      ++ changed "weekly_limit_usd" (fl.equal a.weekly_limit_usd b.weekly_limit_usd)
          (amount a.weekly_limit_usd) (amount b.weekly_limit_usd)
      ++ changed "monthly_limit_usd" (fl.equal a.monthly_limit_usd b.monthly_limit_usd)
          (amount a.monthly_limit_usd) (amount b.monthly_limit_usd)
      ++ changed "quota_mode" (mode a == mode b) (text (mode a)) (text (mode b))

  -- `KeyConfig{}`
  abbrev no_key : KeyConfig fl
  no_key = record {
    id = "";
    name = "";
    enabled = false;
    key_hash = "";
    key_preview = "";
    rpm = 0;
    daily_limit_usd = fl.of_int 0;
    weekly_limit_usd = fl.of_int 0;
    monthly_limit_usd = fl.of_int 0;
    quota_mode = "";
    created_at = 0;
    updated_at = 0;
  }

  -- `keyChanges`
  unfoldable pub key_changes :
      Option (KeyConfig fl) → KeyConfig fl → List (String × Value fl × Value fl)
  unfolding changes_between
  key_changes none current = changes_between no_key current
  key_changes (some before) current = changes_between before current
