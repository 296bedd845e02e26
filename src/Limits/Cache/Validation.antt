-- ===== src/Limits/Cache/Validation.antt =====
-- What the constructor of CacheControlRules accepts.
use datacube_ows.Base.{ℕ, ◌<◌, ◌≡◌, ◌↔◌, refl, false, some, List, [], ◌∷◌, arith, ok, >>=-eq-ok}
use datacube_ows.Base.Int.{ℤ, pos}
use datacube_ows.Limits.Cache.{
  Entry, RawRule, Rule, over_limit, check_rule, check_rules, CacheControlRules, new_cache_rules,
}

-- Rules in strictly ascending order of both numbers, above the two that are given, and within the
-- limit on datasets where one is set.
abbrev pub Ascending : ℤ → ℕ → ℕ → List Rule → Type 0
Ascending limit m a [] = Unit
Ascending limit m a (r ∷ rs) =
    (m < r.min_datasets)
    × (a < r.max_age)
    × (over_limit limit (pos r.min_datasets) ≡ false)
    × Ascending limit r.min_datasets r.max_age rs

-- The raw form of a rule.
abbrev pub raw : Rule → RawRule
raw r = record {
  min_datasets = Entry.int (pos r.min_datasets);
  max_age = Entry.int (pos r.max_age);
}

abbrev pub raw_rules : List Rule → List RawRule
raw_rules [] = []
raw_rules (r ∷ rs) = raw r ∷ raw_rules rs

check_rule-eq-ok :
    (limit : ℤ) (m a : ℕ) (x : RawRule) (r : Rule)
    → check_rule limit m a x ≡ ok r
    → (x ≡ raw r)
      × (m < r.min_datasets)
      × (a < r.max_age)
      × (over_limit limit (pos r.min_datasets) ≡ false)
unfolding check_rule
check_rule-eq-ok limit m a x r h = ground arith

check_rule-raw :
    (limit : ℤ) (m a : ℕ) (r : Rule)
    → m < r.min_datasets
    → a < r.max_age
    → over_limit limit (pos r.min_datasets) ≡ false
    → check_rule limit m a (raw r) ≡ ok r
unfolding check_rule
check_rule-raw limit m a r hm ha hl = ground arith

check_rules-Ascending :
    (limit : ℤ) (m a : ℕ) (xs : List RawRule) (rs : List Rule)
    → check_rules limit m a xs ≡ ok rs
    → (xs ≡ raw_rules rs) × Ascending limit m a rs
unfolding check_rules
check_rules-Ascending limit m a [] rs h = ground arith
check_rules-Ascending limit m a (x ∷ xs) rs h =
    let (r, hr, k) = >>=-eq-ok (check_rule limit m a x) _ h in
    let (rest, hrest, e) =
      >>=-eq-ok (check_rules limit r.min_datasets r.max_age xs) (λ rest. ok (r ∷ rest)) k in
    ground (
      arith,
      check_rule-eq-ok limit m a x r hr,
      check_rules-Ascending limit r.min_datasets r.max_age xs rest hrest,
    )

check_rules-raw_rules :
    (limit : ℤ) (m a : ℕ) (rs : List Rule)
    → Ascending limit m a rs
    → check_rules limit m a (raw_rules rs) ≡ ok rs
unfolding check_rules
check_rules-raw_rules limit m a [] h = refl
check_rules-raw_rules limit m a (r ∷ rs) (hm, ha, hl, h) =
    rw (check_rule-raw limit m a r hm ha hl)
      (rw (check_rules-raw_rules limit r.min_datasets r.max_age rs h))

abbrev pub cache_rules : List Rule → ℤ → CacheControlRules
cache_rules rs limit = record { rules = some rs; max_datasets = limit }

-- The constructor of CacheControlRules accepts a list of raw rules exactly if every entry is an
-- integer, both numbers are positive and strictly ascending from rule to rule, and no rule asks
-- for more datasets than a positive limit allows, where as many as the limit are accepted; it then
-- holds those rules and that limit.
pub new_cache_rules_iff :
    (limit : ℤ) (xs : List RawRule) (rs : List Rule)
    → (new_cache_rules (some xs) limit ≡ ok (cache_rules rs limit))
      ↔ ((xs ≡ raw_rules rs) × Ascending limit 0 0 rs)
unfolding new_cache_rules
new_cache_rules_iff limit xs rs = (accepted, accepts)
  where
    accepted :
        new_cache_rules (some xs) limit ≡ ok (cache_rules rs limit)
        → (xs ≡ raw_rules rs) × Ascending limit 0 0 rs
    accepted h =
        let (ys, hy, e) = >>=-eq-ok (check_rules limit 0 0 xs) _ h in
        let same : ys ≡ rs = cc e in rw same at (check_rules-Ascending limit 0 0 xs ys hy)

    accepts :
        (xs ≡ raw_rules rs) × Ascending limit 0 0 rs
        → new_cache_rules (some xs) limit ≡ ok (cache_rules rs limit)
    accepts (e, h) = rw e (rw (check_rules-raw_rules limit 0 0 rs h))
