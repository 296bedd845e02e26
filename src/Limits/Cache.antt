-- ===== src/Limits/Cache.antt =====
-- `class CacheControlRules`. A rule of the raw configuration is a dictionary whose two entries may
-- be missing or of another type; a rule that passed the checks of the constructor has two positive
-- integers. The message of a ConfigException is a constructor of `RuleError`.
pub mod Validation
pub mod Headers
use datacube_ows.Base.{
  ℕ, ◌≡◌, Bool, true, false, ◌&&◌, ◌||◌, not, Option, none, some, List, [], ◌∷◌, String, ltb, leb,
  ◌==◌, nat_eq, if◌then◌else◌, Result, ok, err, ◌>>=◌, ◌>>◌, raise_if,
}
use datacube_ows.Base.Int.{ℤ, pos, pos_part, ltb_ℤ, leb_ℤ}

-- An entry of a raw rule. Python's `isinstance(v, int)` tells the last two apart.
pub data Entry : Type 0 where
  missing : Entry
  other : Entry
  int : ℤ → Entry

pub record RawRule : Type 0 where
  pub min_datasets : Entry
  pub max_age : Entry

pub record Rule : Type 0 where
  pub min_datasets : ℕ
  pub max_age : ℕ

pub data RuleError : Type 0 where
  no_min_datasets no_max_age : RuleError
  min_datasets_not_int max_age_not_int : RuleError
  min_datasets_not_positive not_ascending exceeds_max_datasets : RuleError
  max_age_not_positive max_age_not_increasing : RuleError

pub is_missing : Entry → Bool
is_missing missing = true
is_missing _ = false

pub int_entry : Entry → RuleError → Result RuleError ℤ
int_entry (int z) e = ok z
int_entry _ e = err e

-- `limit > 0 and n > limit`
unfoldable pub over_limit : ℤ → ℤ → Bool
over_limit limit n = ltb_ℤ (pos 0) limit && ltb_ℤ limit n

-- The body of the loop in `__init__`: the checks in the order of the code. `min_so_far` and
-- `age_so_far` start at 0 and hold checked values, so they are naturals.
pub check_rule : ℤ → ℕ → ℕ → RawRule → Result RuleError Rule
unfolding is_missing int_entry over_limit
check_rule max_datasets min_so_far age_so_far r = do
  raise_if (is_missing r.min_datasets) no_min_datasets
  raise_if (is_missing r.max_age) no_max_age
  min_datasets ← int_entry r.min_datasets min_datasets_not_int
  max_age ← int_entry r.max_age max_age_not_int
  raise_if (leb_ℤ min_datasets (pos 0)) min_datasets_not_positive
  raise_if (leb_ℤ min_datasets (pos min_so_far)) not_ascending
  raise_if (over_limit max_datasets min_datasets) exceeds_max_datasets
  raise_if (leb_ℤ max_age (pos 0)) max_age_not_positive
  raise_if (leb_ℤ max_age (pos age_so_far)) max_age_not_increasing
  ok (record { min_datasets = pos_part min_datasets; max_age = pos_part max_age })

pub check_rules : ℤ → ℕ → ℕ → List RawRule → Result RuleError (List Rule)
check_rules max_datasets min_so_far age_so_far [] = ok []
check_rules max_datasets min_so_far age_so_far (r ∷ rs) =
    check_rule max_datasets min_so_far age_so_far r >>= λ rule.
    (check_rules max_datasets rule.min_datasets rule.max_age rs >>= λ rest. ok (rule ∷ rest))

-- `rules` is None when no rules are configured: then `use_caching` is false.
pub record CacheControlRules : Type 0 where
  pub rules : Option (List Rule)
  pub max_datasets : ℤ

unfoldable pub new_cache_rules : Option (List RawRule) → ℤ → Result RuleError CacheControlRules
unfolding check_rules check_rule
new_cache_rules none max_datasets = ok (record { rules = none; max_datasets = max_datasets })
new_cache_rules (some cfg) max_datasets = do
  rules ← check_rules max_datasets 0 0 cfg
  ok (record { rules = some rules; max_datasets = max_datasets })

pub data CacheControl : Type 0 where
  no_cache : CacheControl
  max_age : ℕ → CacheControl

abbrev pub HeaderDict : Type 0
HeaderDict = List (String × CacheControl)

-- `cache_control_headers`
pub cache_control_headers : ℕ → HeaderDict
cache_control_headers age =
    if leb age 0 then ("cache-control", no_cache) ∷ [] else ("cache-control", max_age age) ∷ []

-- The `for` loop of `cache_headers`: the last rule before the first that wants more datasets.
pub pick_rule : ℕ → List Rule → Option Rule → Option Rule
pick_rule n [] rule = rule
pick_rule n (r ∷ rs) rule =
    let rest = pick_rule n rs (some r) in if ltb n r.min_datasets then rule else rest

pub headers_of_rule : Option Rule → HeaderDict
unfolding cache_control_headers
headers_of_rule (some rule) = cache_control_headers rule.max_age
headers_of_rule none = cache_control_headers 0

pub rule_headers : List Rule → ℤ → ℕ → HeaderDict
unfolding cache_control_headers over_limit headers_of_rule
rule_headers rules max_datasets n =
    if (n == 0) || over_limit max_datasets (pos n)
    then cache_control_headers 0
    else headers_of_rule (pick_rule n rules none)

-- `cache_headers`. The number of datasets is a natural, which is what the code asserts.
unfoldable pub cache_headers : CacheControlRules → ℕ → HeaderDict
unfolding rule_headers pick_rule
cache_headers c n = elim c.rules [ none ↦ [] | some rules ↦ rule_headers rules c.max_datasets n ]
