-- ===== src/Limits/Tests.antt =====
-- Runs of the resource limits.
use datacube_ows.Base.{
  ◌≡◌, refl, ◌↔◌, ◌⊎◌, true, false, some, List, [], ◌∷◌, ok, err, arith, ◌*◌, ◌||◌, ◌==◌, nat_eq,
  if◌then◌else◌, ℕ,
}
use datacube_ows.Base.Int.{ℤ, pos}
use datacube_ows.Base.Float.{thousandths}
use datacube_ows.Limits.Cache.{
  Rule, RuleError, over_limit, new_cache_rules, CacheControl, cache_headers, cache_control_headers,
}
use datacube_ows.Limits.Cache.Validation.{Ascending, cache_rules, raw_rules, new_cache_rules_iff}
use datacube_ows.Limits.Cache.Headers.{age_for, cache_headers_best}
use datacube_ows.Limits.Check.{ResourceLimits, Reason, check_wms, check_wcs, WcsAnswer, wcs_answer}
use datacube_ows.Limits.Check.Decisions.{Within, check_wms_iff, check_wcs_iff, wcs_answer_iff}

abbrev rule : ℕ → ℕ → Rule
rule m a = record { min_datasets = m; max_age = a }

abbrev rules : List Rule
rules = rule 5 60 ∷ rule 8 120 ∷ rule 16 300 ∷ []

rules-Ascending : Ascending (pos 20) 0 0 rules
unfolding over_limit
rules-Ascending = ground arith

new_cache_rules_iff_example :
    (new_cache_rules (some (raw_rules rules)) (pos 20) ≡ ok (cache_rules rules (pos 20)))
    ↔ ((raw_rules rules ≡ raw_rules rules) × Ascending (pos 20) 0 0 rules)
new_cache_rules_iff_example = new_cache_rules_iff (pos 20) (raw_rules rules) rules

cache_headers_best_example :
    cache_headers (cache_rules rules (pos 20)) 9
    ≡ cache_control_headers
        (if ◌==◌ {K = ℕ} 9 0 || over_limit (pos 20) (pos 9) then 0 else age_for 9 rules)
cache_headers_best_example = cache_headers_best (pos 20) rules 9 rules-Ascending

fits_limit : over_limit (pos 20) (pos 17) ≡ false
unfolding over_limit
fits_limit = refl

header_of_six :
    cache_headers (cache_rules rules (pos 20)) 6 ≡ ("cache-control", CacheControl.max_age 60) ∷ []
unfolding cache_headers
header_of_six = refl

not_ascending_rules :
    new_cache_rules (some (raw_rules (rule 5 60 ∷ rule 5 70 ∷ []))) (pos 0)
    ≡ err RuleError.not_ascending
unfolding new_cache_rules
not_ascending_rules = refl

abbrev limits : ResourceLimits thousandths
limits = record {
  zoom_fill = pos 150 ∷ pos 180 ∷ pos 200 ∷ pos 160 ∷ [];
  min_zoom = some (pos 300000);
  min_zoom_lvl = some (pos 5500);
  max_datasets_wms = pos 10;
  max_datasets_wcs = pos 16;
  max_image_size_wcs = pos 1000;
  wms_cache_rules = cache_rules rules (pos 20);
  wcs_cache_rules = cache_rules rules (pos 20);
}

check_wms_iff_example : (check_wms thousandths limits 9 (pos 310000) (pos 5495) ≡ ok tt) ↔ (
    Within (pos 10) 9
    × ((least : ℤ) → some (pos 300000) ≡ some least → thousandths.lt (pos 310000) least ≡ false)
    × ((least : ℤ)
        → some (pos 5500) ≡ some least
        → thousandths.lt (pos 5495) (thousandths.sub least (thousandths.decimal (pos 1) 2))
          ≡ false))
check_wms_iff_example = check_wms_iff thousandths limits 9 (pos 310000) (pos 5495)

check_wcs_iff_example :
    (check_wcs thousandths limits 9 10 10 2 5 ≡ ok tt)
    ↔ (Within (pos 16) 9 × Within (pos 1000) (5 * (10 * 10) * 2))
check_wcs_iff_example = check_wcs_iff thousandths limits 9 10 10 2 5

too_large :
    check_wcs thousandths limits 20 10 10 2 6
    ≡ err
        (record { reasons = Reason.too_many_datasets ∷ Reason.too_much_data ∷ []; wcs_hard = true })
unfolding check_wcs
too_large = refl

wcs_answer_iff_example :
    let answer = wcs_answer true (check_wcs thousandths limits 20 10 10 2 5) in
    let fits = Within (pos 1000) (5 * (10 * 10) * 2) in
    let few = Within (pos 16) 20 in
    ((answer ≡ WcsAnswer.low_resolution) ↔ ((true ≡ true) × fits × (¬ few)))
    × ((answer ≡ WcsAnswer.refused) ↔ ((¬ fits) ⊎ ((¬ few) × (true ≡ false))))
wcs_answer_iff_example = wcs_answer_iff thousandths limits true 20 10 10 2 5
