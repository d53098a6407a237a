-- ===== src/Examples/Scanning.antt =====
-- The theorems on the scanner of JSON at concrete texts.
use cpa_plugin_key_policy.Base.{◌≡◌, false, not, [], ◌∷◌, length, drop, ◌==◌, nat_eq}
use cpa_plugin_key_policy.Jsonscan.{Bytes, quote, skip_string, skip_value}
use cpa_plugin_key_policy.Jsonscan.Members.{members}
use cpa_plugin_key_policy.Jsonscan.Strings.{literal_end, skip_string-literal_end}
use cpa_plugin_key_policy.Jsonscan.Bounds.{EndsWithin, skip_value-EndsWithin}
use cpa_plugin_key_policy.Jsonscan.Walks.{IsWalk, members-IsWalk}

-- the text {"a":[1],"b":2}
abbrev text : Bytes
text =
    b'{' ∷ quote ∷ b'a' ∷ quote ∷ b':' ∷ b'[' ∷ b'1' ∷ b']' ∷ b',' ∷ quote ∷ b'b' ∷ quote ∷ b':'
    ∷ b'2' ∷ b'}' ∷ []

skip_string-literal_end_example : skip_string text 1 ≡ literal_end false (drop 2 text) 2
skip_string-literal_end_example = skip_string-literal_end text 1

skip_value-EndsWithin_example : EndsWithin 5 (length text) (skip_value text 5)
skip_value-EndsWithin_example = skip_value-EndsWithin text 5

members-IsWalk_example : IsWalk text (members text (λ key start end. not (start == 5)))
members-IsWalk_example = members-IsWalk text (λ key start end. not (start == 5))
