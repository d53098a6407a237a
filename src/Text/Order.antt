-- ===== src/Text/Order.antt =====
-- The order of texts is a strict order.
use cpa_plugin_key_policy.Base.{◌≡◌, true, false, arith, String, nat_eq}
use cpa_plugin_key_policy.Text.{before}

pub before_asym : (s t : String) → before s t ≡ true → before t s ≡ false
unfolding before
before_asym String.[] String.[] h = absurd (cc)
before_asym String.[] (String.◌∷◌ d t) h = ground arith
before_asym (String.◌∷◌ c s) String.[] h = absurd (cc)
before_asym (String.◌∷◌ c s) (String.◌∷◌ d t) h = ground (arith, before_asym s t)

pub before_trans : (s t u : String) → before s t ≡ true → before t u ≡ true → before s u ≡ true
unfolding before
before_trans s t String.[] h k = absurd (cc)
before_trans s String.[] u h k = absurd (cc)
before_trans String.[] (String.◌∷◌ d t) (String.◌∷◌ e u) h k = ground arith
before_trans (String.◌∷◌ c s) (String.◌∷◌ d t) (String.◌∷◌ e u) h k =
    ground (arith, before_trans s t u)
