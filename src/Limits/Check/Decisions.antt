-- ===== src/Limits/Check/Decisions.antt =====
-- What the checks on a WMS and a WCS request decide.
use datacube_ows.Base.{
  ℕ, ◌*◌, ◌≡◌, ◌↔◌, ◌⊎◌, refl, Option, none, some, Bool, true, false, arith, ok, err,
}
use datacube_ows.Base.Int.{ℤ, pos, ◌≤ℤ◌}
use datacube_ows.Base.Float.{Floats}
use datacube_ows.Limits.Cache.{over_limit}
use datacube_ows.Limits.Check.{
  ResourceLimited, ResourceLimits, below_minimum, below_level, check_wms, check_wcs, WcsAnswer,
  wcs_answer,
}

-- A limit that is not positive is none.
abbrev pub Within : ℤ → ℕ → Type 0
Within limit n = (limit ≤ℤ pos 0) ⊎ (pos n ≤ℤ limit)

over_limit_iff : (limit : ℤ) (n : ℕ) → (over_limit limit (pos n) ≡ false) ↔ Within limit n
unfolding over_limit
over_limit_iff limit n = ground arith

module _ (fl : Floats) (self : ResourceLimits fl) where
  passes_iff :
      (n : ℕ) (zoom level : fl.F)
      → (check_wms fl self n zoom level ≡ ok tt) ↔ (
          Within self.max_datasets_wms n
          × (below_minimum fl self.min_zoom zoom ≡ false)
          × (below_level fl self.min_zoom_lvl level ≡ false))
  unfolding check_wms
  passes_iff n zoom level = ground (arith, over_limit_iff self.max_datasets_wms n)

  below_minimum_iff :
      (least : Option fl.F) (x : fl.F)
      → (below_minimum fl least x ≡ false) ↔ ((m : fl.F) → least ≡ some m → fl.lt x m ≡ false)
  unfolding below_minimum
  below_minimum_iff none x = ((λ h m e. cc), λ h. refl)
  below_minimum_iff (some l) x = ((λ h m e. ground arith), λ h. h l refl)

  below_level_iff :
      (least : Option fl.F) (x : fl.F)
      → (below_level fl least x ≡ false)
        ↔ ((m : fl.F) → least ≡ some m → fl.lt x (fl.sub m (fl.decimal (pos 1) 2)) ≡ false)
  unfolding below_level
  below_level_iff none x = ((λ h m e. cc), λ h. refl)
  below_level_iff (some l) x = ((λ h m e. ground arith), λ h. h l refl)

  -- A WMS request passes exactly if it is within the limit on datasets, its zoom factor is not below
  -- the minimum where one is set, and its adjusted zoom level is not below 0.01 less than the minimum
  -- level where one is set.
  pub check_wms_iff :
      (n : ℕ) (zoom level : fl.F)
      → (check_wms fl self n zoom level ≡ ok tt) ↔ (
          Within self.max_datasets_wms n
          × ((least : fl.F) → self.min_zoom ≡ some least → fl.lt zoom least ≡ false)
          × ((least : fl.F)
              → self.min_zoom_lvl ≡ some least
              → fl.lt level (fl.sub least (fl.decimal (pos 1) 2)) ≡ false))
  check_wms_iff n zoom level =
      let factor = below_minimum_iff self.min_zoom zoom in
      let lvl = below_level_iff self.min_zoom_lvl level in
      (
        λ h.
            let (few, near, detailed) = (passes_iff n zoom level).0 h in
            (few, factor.0 near, lvl.0 detailed),
        λ (few, near, detailed). (passes_iff n zoom level).1 (few, factor.1 near, lvl.1 detailed),
      )

  -- A WCS request passes exactly if it is within the limit on datasets and its pixels, over all
  -- dates and bands, are within the limit on the size of an image.
  pub check_wcs_iff :
      (n h w size dates : ℕ)
      → (check_wcs fl self n h w size dates ≡ ok tt)
        ↔ (Within self.max_datasets_wcs n × Within self.max_image_size_wcs (dates * (h * w) * size))
  unfolding check_wcs
  check_wcs_iff n h w size dates = ground (
    arith,
    over_limit_iff self.max_datasets_wcs n,
    over_limit_iff self.max_image_size_wcs (dates * (h * w) * size),
  )

  -- The reasons of a refused WCS request tell what was broken: the size of the image is the hard
  -- one, and the exception is marked as hard exactly if that limit is broken.
  pub check_wcs_hard :
      (n h w size dates : ℕ) {e : ResourceLimited}
      → check_wcs fl self n h w size dates ≡ err e
      → (e.wcs_hard ≡ true) ↔ ¬ Within self.max_image_size_wcs (dates * (h * w) * size)
  unfolding check_wcs
  check_wcs_hard n h w size dates h' =
      ground (arith, over_limit_iff self.max_image_size_wcs (dates * (h * w) * size))

  -- A WCS request is served from the low-resolution products exactly if the layer has some, the
  -- size of the image is within its limit and the number of datasets is not; it is refused exactly
  -- if the image is too large, or the datasets are too many and there is no low-resolution product.
  pub wcs_answer_iff :
      (low_res : Bool) (n h w size dates : ℕ)
      → let answer = wcs_answer low_res (check_wcs fl self n h w size dates) in
        let fits = Within self.max_image_size_wcs (dates * (h * w) * size) in
        let few = Within self.max_datasets_wcs n in
        ((answer ≡ WcsAnswer.low_resolution) ↔ ((low_res ≡ true) × fits × (¬ few)))
        × ((answer ≡ WcsAnswer.refused) ↔ ((¬ fits) ⊎ ((¬ few) × (low_res ≡ false))))
  unfolding check_wcs wcs_answer
  wcs_answer_iff low_res n h w size dates = ground (
    arith,
    over_limit_iff self.max_datasets_wcs n,
    over_limit_iff self.max_image_size_wcs (dates * (h * w) * size),
  )
