-- ===== src/Text.antt =====
-- What the code uses of Go's strings package: TrimSpace, ToLower, ToUpper, HasPrefix, HasSuffix,
-- TrimPrefix, TrimRight, Contains and Fields, and
-- the order of texts, on texts of code points.
pub mod Order
pub mod Trimming
use Prim.Native.Char.{Char, code}
use Prim.Native.String.{String}
use cpa_plugin_key_policy.Base.{
  ℕ, Bool, true, false, not, ◌&&◌, ◌||◌, ltb, leb, ◌==◌, nat_eq, string_eq, List, [], ◌∷◌, Option,
  none, some, is_some, get_or, if◌then◌else◌,
}

-- `unicode.IsSpace` on a code point
is_space_code : ℕ → Bool
is_space_code c =
    leb 9 c && leb c 13
    || c == 32
    || c == 0x85
    || c == 0xA0
    || c == 0x1680
    || leb 0x2000 c && leb c 0x200A
    || c == 0x2028
    || c == 0x2029
    || c == 0x202F
    || c == 0x205F
    || c == 0x3000

unfoldable pub is_space : Char → Bool
unfolding is_space_code
is_space c = is_space_code (code c)

-- `strings.TrimSpace(s) == ""`
unfoldable pub blank : String → Bool
unfolding is_space
blank String.[] = true
blank (String.◌∷◌ c s) = is_space c && blank s

trim_left : String → String
unfolding is_space
trim_left String.[] = ""
trim_left (String.◌∷◌ c s) = let rest = trim_left s in if is_space c then rest else String.◌∷◌ c s

trim_right : String → String
unfolding is_space blank
trim_right String.[] = ""
trim_right (String.◌∷◌ c s) =
    let rest = trim_right s in if is_space c && blank s then "" else String.◌∷◌ c rest

-- `strings.TrimSpace`
unfoldable pub trim_space : String → String
unfolding trim_left trim_right
trim_space s = trim_left (trim_right s)

-- `strings.ToLower`, by a table that lowers one character
unfoldable pub to_lower : (Char → Char) → String → String
to_lower lower String.[] = ""
to_lower lower (String.◌∷◌ c s) = String.◌∷◌ (lower c) (to_lower lower s)

unfoldable pub append : String → String → String
append String.[] t = t
append (String.◌∷◌ c s) t = String.◌∷◌ c (append s t)

-- `strings.TrimPrefix(s, prefix)`, none where `s` has no such prefix
unfoldable pub strip_prefix : String → String → Option String
strip_prefix String.[] s = some s
strip_prefix (String.◌∷◌ p ps) String.[] = none
strip_prefix (String.◌∷◌ p ps) (String.◌∷◌ c s) =
    let rest = strip_prefix ps s in if code p == code c then rest else none

-- `strings.HasPrefix(s, prefix)`
unfoldable pub has_prefix : String → String → Bool
unfolding strip_prefix
has_prefix prefix s = is_some (strip_prefix prefix s)

-- `strings.TrimPrefix(s, prefix)`
unfoldable pub trim_prefix : String → String → String
unfolding strip_prefix
trim_prefix prefix s = get_or (strip_prefix prefix s) s

-- `strings.Contains(s, part)`
unfoldable pub contains : String → String → Bool
unfolding has_prefix
contains part String.[] = has_prefix part ""
contains part (String.◌∷◌ c s) = has_prefix part (String.◌∷◌ c s) || contains part s

-- `s < t`, which Go decides by bytes: in UTF-8 the order of bytes is that of code points
unfoldable pub before : String → String → Bool
before s String.[] = false
before String.[] (String.◌∷◌ d t) = true
before (String.◌∷◌ c s) (String.◌∷◌ d t) =
    let rest = before s t in if code c == code d then rest else ltb (code c) (code d)

-- `strings.ToUpper`, by a table that raises one character
unfoldable pub to_upper : (Char → Char) → String → String
unfolding to_lower
to_upper upper s = to_lower upper s

-- `strings.HasSuffix(s, suffix)`
unfoldable pub has_suffix : String → String → Bool
has_suffix suffix String.[] = suffix == ""
has_suffix suffix (String.◌∷◌ c s) = String.◌∷◌ c s == suffix || has_suffix suffix s

is_slash : Char → Bool
is_slash c = code c == 47

only_slashes : String → Bool
unfolding is_slash
only_slashes String.[] = true
only_slashes (String.◌∷◌ c s) = is_slash c && only_slashes s

-- `strings.TrimRight(s, "/")`
unfoldable pub trim_slashes : String → String
unfolding is_slash only_slashes
trim_slashes String.[] = ""
trim_slashes (String.◌∷◌ c s) =
    let rest = trim_slashes s in if is_slash c && only_slashes s then "" else String.◌∷◌ c rest

-- whether a text begins with a word
begins_word : String → Bool
unfolding is_space
begins_word String.[] = false
begins_word (String.◌∷◌ c s) = not (is_space c)

grow : Char → List String → List String
grow c [] = String.◌∷◌ c "" ∷ []
grow c (word ∷ words) = String.◌∷◌ c word ∷ words

-- `strings.Fields`
unfoldable pub fields : String → List String
unfolding is_space begins_word grow
fields String.[] = []
fields (String.◌∷◌ c s) =
    let rest = fields s in
    if is_space c then rest else if begins_word s then grow c rest else String.◌∷◌ c "" ∷ rest
