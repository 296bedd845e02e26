-- ===== src/Limits/Cache/Headers.antt =====
-- Which header `cache_headers` gives.
use Prim.Native.Nat.{max}
use datacube_ows.Base.{
  ℕ, ◌≤◌, ◌≡◌, refl, false, ◌||◌, Option, none, some, List, [], ◌∷◌, arith, leb, ltb, ◌==◌, nat_eq,
  if◌then◌else◌, Bool-cases, inl, inr, ap, sym, ◌∙◌,
}
use datacube_ows.Base.Int.{ℤ, pos}
use datacube_ows.Limits.Cache.{
  Rule, over_limit, CacheControl, cache_control_headers, pick_rule, headers_of_rule, rule_headers,
  cache_headers,
}
use datacube_ows.Limits.Cache.Validation.{Ascending, cache_rules}

-- The largest age of all the rules that a request for `n` datasets meets, 0 if it meets none. It
-- does not depend on the order of the rules.
abbrev pub age_for : ℕ → List Rule → ℕ
age_for n [] = 0
age_for n (r ∷ rs) = if leb r.min_datasets n then max r.max_age (age_for n rs) else age_for n rs

abbrev age_of : Option Rule → ℕ
age_of none = 0
age_of (some r) = r.max_age

-- Past a rule that wants more than `n` datasets, all do.
age_for_above :
    (limit : ℤ) (m a n : ℕ) (rs : List Rule) → n ≤ m → Ascending limit m a rs → age_for n rs ≡ 0
age_for_above limit m a n [] h asc = refl
age_for_above limit m a n (r ∷ rs) h (hm, ha, hl, asc) =
    ground (arith, age_for_above limit r.min_datasets r.max_age n rs)

age_of-pick_rule :
    (limit : ℤ) (m n : ℕ) (rs : List Rule) (d : Option Rule)
    → Ascending limit m (age_of d) rs
    → age_of (pick_rule n rs d) ≡ max (age_of d) (age_for n rs)
unfolding pick_rule
age_of-pick_rule limit m n [] d asc = omega arith
age_of-pick_rule limit m n (r ∷ rs) d (hm, ha, hl, asc) = elim (Bool-cases (ltb n r.min_datasets)) [
  | inl short ↦ rw short (ground (arith, age_for_above limit r.min_datasets r.max_age n rs))
  | inr met ↦ rw met (ground (arith, age_of-pick_rule limit r.min_datasets n rs (some r) asc))
]

headers_of_rule_lem : (d : Option Rule) → headers_of_rule d ≡ cache_control_headers (age_of d)
unfolding headers_of_rule
headers_of_rule_lem none = refl
headers_of_rule_lem (some r) = refl

-- With rules that the constructor accepts, the headers of a request for `n` datasets are those of
-- the largest age among the rules whose `min_datasets` is at most `n` (no caching if there is
-- none), except that a request for no dataset, or for more than a positive limit, is not cached.
pub cache_headers_best :
    (limit : ℤ) (rs : List Rule) (n : ℕ)
    → Ascending limit 0 0 rs
    → cache_headers (cache_rules rs limit) n
      ≡ cache_control_headers (if (n == 0) || over_limit limit (pos n) then 0 else age_for n rs)
unfolding cache_headers
cache_headers_best limit rs n asc = elim (Bool-cases ((n == 0) || over_limit limit (pos n))) [
  | inl uncached ↦ rw (uncached, rule_headers) refl
  | inr cached ↦
      rw (cached, rule_headers)
        (rw headers_of_rule_lem
          (ap cache_control_headers (age_of-pick_rule limit 0 n rs none asc ∙ (omega arith))))
]

age_for_mono : (m n : ℕ) (rs : List Rule) → m ≤ n → age_for m rs ≤ age_for n rs
age_for_mono m n [] h = omega arith
age_for_mono m n (r ∷ rs) h = ground (arith, age_for_mono m n rs h)

-- With rules that the constructor accepts, a larger request that is within the limit is never
-- cached for a shorter time: if a request for `m` datasets is given an age, one for `n` of them,
-- n at least m and not over the limit, is given an age that is at least as large.
pub cache_headers_mono :
    (limit : ℤ) (rs : List Rule) (m n a : ℕ)
    → Ascending limit 0 0 rs
    → m ≤ n
    → over_limit limit (pos n) ≡ false
    → cache_headers (cache_rules rs limit) m ≡ ("cache-control", CacheControl.max_age a) ∷ []
    → (b : ℕ) × (cache_headers (cache_rules rs limit) n
        ≡ ("cache-control", CacheControl.max_age b) ∷ [])
      × (a ≤ b)
unfolding cache_control_headers
cache_headers_mono limit rs m n a asc le fits h =
    let at_m = sym (cache_headers_best limit rs m asc) ∙ h in
    (
      age_for n rs,
      rw (cache_headers_best limit rs n asc) (ground (arith, age_for_mono m n rs)),
      ground (arith, age_for_mono m n rs),
    )
