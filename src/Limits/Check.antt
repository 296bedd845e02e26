-- ===== src/Limits/Check.antt =====
-- `class OWSResourceManagementRules`: the limits on a request, and what a WCS request that breaks
-- them is answered (the `except ResourceLimited` of `get_coverage_data` in datacube_ows/wcs1_utils.py
-- and datacube_ows/wcs2_utils.py).
pub mod Decisions
use datacube_ows.Base.{
  ℕ, ◌*◌, Bool, true, false, ◌&&◌, ◌||◌, not, Option, none, some, List, [], ◌∷◌, ◌++◌,
  if◌then◌else◌, Result, ok, err, ◌>>=◌, ◌>>◌, raise_if, length, ltb, nat_beq,
}
use datacube_ows.Base.Int.{ℤ, pos, ltb_ℤ}
use datacube_ows.Base.Float.{Floats}
use datacube_ows.Limits.Cache.{over_limit, RawRule, RuleError, CacheControlRules, new_cache_rules}

pub data LimitsError : Type 0 where
  bad_fill_colour : LimitsError
  bad_rule : RuleError → LimitsError

-- The reasons of a ResourceLimited exception.
pub data Reason : Type 0 where
  too_many_datasets zoomed_out_too_far too_much_projected too_much_data : Reason

pub record ResourceLimited : Type 0 where
  pub reasons : List Reason
  pub wcs_hard : Bool

-- `zoomed_out_fill_colour`: the alpha channel is added to three values.
pub check_zoom_fill : List ℤ → Result LimitsError (List ℤ)
check_zoom_fill colour =
    let filled = if nat_beq (length colour) 3 then colour ++ (pos 255 ∷ []) else colour in
    if nat_beq (length filled) 4 then ok filled else err bad_fill_colour

module _ (fl : Floats) where
  open fl use {F, lt, sub, decimal}

  -- The values that the checks read.
  pub record ResourceLimits : Type 0 where
    pub zoom_fill : List ℤ
    pub min_zoom : Option F
    pub min_zoom_lvl : Option F
    pub max_datasets_wms : ℤ
    pub max_datasets_wcs : ℤ
    pub max_image_size_wcs : ℤ
    pub wms_cache_rules : CacheControlRules
    pub wcs_cache_rules : CacheControlRules

  pub below_minimum : Option F → F → Bool
  below_minimum none x = false
  below_minimum (some m) x = lt x m

  -- `limits_exceeded.append(reason)` under a test.
  abbrev pub append_if : Bool → Reason → List Reason → List Reason
  append_if c r rs = if c then rs ++ (r ∷ []) else rs

  -- `if limits_exceeded: raise ResourceLimited(limits_exceeded, wcs_hard)`
  pub raise_limited : List Reason → Bool → Result ResourceLimited (Unit {0})
  raise_limited [] hard = ok tt
  raise_limited (r ∷ rs) hard = err (record { reasons = r ∷ rs; wcs_hard = hard })

  pub below_level : Option F → F → Bool
  below_level none x = false
  below_level (some m) x = lt x (sub m (decimal (pos 1) 2))

  -- `zoom_level` is `request_scale.load_adjusted_zoom_level`.
  unfoldable pub check_wms : ResourceLimits → ℕ → F → F → Result ResourceLimited (Unit {0})
  unfolding over_limit below_minimum raise_limited below_level
  check_wms self n_datasets zoom_factor zoom_level =
      let l1 = append_if (over_limit self.max_datasets_wms (pos n_datasets)) too_many_datasets [] in
      let l2 = append_if (below_minimum self.min_zoom zoom_factor) zoomed_out_too_far l1 in
      let l3 = append_if (below_level self.min_zoom_lvl zoom_level) too_much_projected l2 in
      raise_limited l3 false

  unfoldable pub check_wcs : ResourceLimits → ℕ → ℕ → ℕ → ℕ → ℕ → Result ResourceLimited (Unit {0})
  unfolding over_limit raise_limited
  check_wcs self n_datasets height width pixel_size n_dates =
      let l1 = append_if (over_limit self.max_datasets_wcs (pos n_datasets)) too_many_datasets [] in
      let pixel_count = height * width in
      let hard = over_limit self.max_image_size_wcs (pos (n_dates * pixel_count * pixel_size)) in
      raise_limited (append_if hard too_much_data l1) hard

abbrev pub in_rules : Result RuleError CacheControlRules → Result LimitsError CacheControlRules
in_rules (ok c) = ok c
in_rules (err e) = err (bad_rule e)

module _ (fl : Floats) where
  -- The configuration, with the defaults of the code put in for what is missing. The age for
  -- describe requests is read apart (`parse_cache_age`).
  pub record RawLimits : Type 0 where
    pub zoomed_out_fill_colour : List ℤ
    pub min_zoom_factor : Option fl.F
    pub min_zoom_level : Option fl.F
    pub wms_max_datasets : ℤ
    pub wcs_max_datasets : ℤ
    pub wcs_max_image_size : ℤ
    pub wms_rules : Option (List RawRule)
    pub wcs_rules : Option (List RawRule)

  -- `__init__`
  pub new_limits : RawLimits → Result LimitsError (ResourceLimits fl)
  unfolding check_zoom_fill
  new_limits cfg = do
    fill ← check_zoom_fill cfg.zoomed_out_fill_colour
    wms ← in_rules (new_cache_rules cfg.wms_rules cfg.wms_max_datasets)
    wcs ← in_rules (new_cache_rules cfg.wcs_rules cfg.wcs_max_datasets)
    ok (record {
      zoom_fill = fill;
      min_zoom = cfg.min_zoom_factor;
      min_zoom_lvl = cfg.min_zoom_level;
      max_datasets_wms = cfg.wms_max_datasets;
      max_datasets_wcs = cfg.wcs_max_datasets;
      max_image_size_wcs = cfg.wcs_max_image_size;
      wms_cache_rules = wms;
      wcs_cache_rules = wcs;
    })

-- The answers to a WCS request by its resources: as asked, from the low-resolution products, or an
-- exception.
pub data WcsAnswer : Type 0 where
  full_resolution low_resolution refused : WcsAnswer

-- The `try` block of `get_coverage_data`; `low_res` tells if the layer has low-resolution products.
pub wcs_answer : Bool → Result ResourceLimited (Unit {0}) → WcsAnswer
wcs_answer low_res (ok _) = full_resolution
wcs_answer low_res (err e) = if e.wcs_hard || not low_res then refused else low_resolution
