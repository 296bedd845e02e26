-- ===== src/Wcs/Coverage/Plans.antt =====
-- What an accepted WCS 2 request promises.
use datacube_ows.Base.{
  ◌≡◌, subst, Bool, true, false, ◌&&◌, not, String, ok, >>=-eq-ok, raise_if-ok, ok_injective, Dict,
  length, ltb, arith,
}
use datacube_ows.Base.Float.{Floats}
use datacube_ows.Wcs.Scaler.{Shape, Bounds}
use datacube_ows.Wcs.Transform.{affine}
use datacube_ows.Wcs.Fields.{Format, uniform_crs, request_bands, request_format}
use datacube_ows.Wcs.Fields.Choices.{Known, request_bands-Known}
use datacube_ows.Wcs.Coverage.{
  CoverageLayer, CoverageRequest, CoveragePlan, request_crs, request_extent, coverage_plan,
  uncaught,
}

module _ (fl : Floats) (to_crs_point : String → String → fl.F → fl.F → fl.F × fl.F)
    (to_crs_box : String → String → Shape fl → Bounds fl) (published : String → Bool)
    (formats : Dict String Format) where
  request_crs-published :
      (layer : CoverageLayer fl) (request : CoverageRequest fl) (subsetting output : String)
      → request_crs fl to_crs_point to_crs_box published formats layer request
        ≡ ok (subsetting, output)
      → published output ≡ true
  unfolding request_crs
  request_crs-published layer request subsetting output h =
      let (s, _, h1) = >>=-eq-ok (uniform_crs published _) _ h in
      let (_, h2) = raise_if-ok (not (published s)) _ _ h1 in
      let (o, _, h3) = >>=-eq-ok (uniform_crs published _) _ h2 in
      let (good, h4) = raise_if-ok (not (published o)) _ _ h3 in
      subst (λ p. published p.1 ≡ true) (ok_injective h4) (ground (arith, good))

  -- An accepted request is answered in a published coordinate system, with bands of the layer, and with
  -- at most one time unless its format can hold several.
  pub coverage_plan_sound :
      (layer : CoverageLayer fl) (request : CoverageRequest fl) (plan : CoveragePlan fl)
      → coverage_plan fl to_crs_point to_crs_box published formats layer request ≡ ok plan
      → (published plan.crs ≡ true)
        × Known layer.band_labels plan.bands
        × ((ltb 1 (length plan.times) && not plan.format.multi_time) ≡ false)
  unfolding coverage_plan
  coverage_plan_sound layer request plan h =
      let (p, crs, h1) =
        >>=-eq-ok (request_crs fl to_crs_point to_crs_box published formats layer request) _ h in
      let (q, _, h2) =
        >>=-eq-ok
          (request_extent fl to_crs_point to_crs_box published formats layer request p.0 p.1) _
          h1 in
      let (bands, known, h3) =
        >>=-eq-ok (request_bands layer.band_labels request.range_subset) _ h2 in
      let (fmt, _, h4) =
        >>=-eq-ok (request_format formats layer.native_format request.format) _ h3 in
      let (single, h5) = raise_if-ok (ltb 1 (length q.0) && not fmt.multi_time) _ _ h4 in
      let Sound : CoveragePlan fl → Type 0 = λ r.
        (published r.crs ≡ true)
        × Known layer.band_labels r.bands
        × ((ltb 1 (length r.times) && not r.format.multi_time) ≡ false) in
      let (_, _, h6) = >>=-eq-ok (uncaught fl (affine fl layer.grid q.1)) _ h5 in
      subst Sound (ok_injective h6) (
        request_crs-published layer request p.0 p.1 crs,
        request_bands-Known layer.band_labels request.range_subset bands known,
        single,
      )
