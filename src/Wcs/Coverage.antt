-- ===== src/Wcs/Coverage.antt =====
-- `get_coverage_data` of datacube_ows/wcs2_utils.py, up to the loading of data: what a WCS 2 request asks
-- for. The parsed request comes from the package ows: its trims, slices and scales hold text for times
-- and numbers for the other axes, so that one that holds the other kind is a TypeError at once.
pub mod Plans
use datacube_ows.Base.{
  ℕ, Bool, not, ◌&&◌, ltb, Option, none, some, List, [], ◌∷◌, String, ◌==◌, string_eq,
  if◌then◌else◌, Result, ok, err, ◌>>=◌, ◌>>◌, raise_if, or_raise, Dict, lookup, contains, map,
  length,
}
use datacube_ows.Base.Int.{ℤ}
use datacube_ows.Base.Text.{lower}
use datacube_ows.Base.Float.{Floats}
use datacube_ows.Wcs.Scaler.{
  ScalerError, unknown_dimension, LayerGrid, Scaler, Shape, Bounds, Size, whole, new_scaler, trim,
  slice,
}
use datacube_ows.Wcs.Transform.{scale_axis, scale_size, scale_extent, to_crs, affine, Affine}
use datacube_ows.Wcs.Fields.{
  CoverageError, no_such_coverage, subsetting_crs_not_supported, output_crs_not_supported,
  duplicate_dimensions, duplicate_axes, invalid_axis_label, cannot_scale_axis, no_multi_time,
  uncaught_scaler, type_error, uniform_crs, has_duplicates, RangeItem, request_bands, Format,
  request_format, TimeModel, trim_times, slice_time,
}

module _ (fl : Floats) where
  -- A subset of a request: on time, or on an axis.
  pub data Extent : Type 0 where
    trim_text : Option String → Option String → Extent
    slice_text : String → Extent
    trim_number : Option fl.F → Option fl.F → Extent
    slice_number : fl.F → Extent

  pub record Subset : Type 0 where
    pub dimension : String
    pub extent : Extent

  pub data Scaling : Type 0 where
    by_factor : fl.F → Scaling
    to_size : ℤ → Scaling
    to_extent : fl.F → fl.F → Scaling

  pub record Scale : Type 0 where
    pub axis : String
    pub scaling : Scaling

  -- `except WCSScalerUnknownDimension`
  abbrev in_subset : String → Result ScalerError (Scaler fl) → Result CoverageError (Scaler fl)
  in_subset dimension (ok s) = ok s
  in_subset dimension (err (unknown_dimension _)) = err (invalid_axis_label dimension)
  in_subset dimension (err e) = err (uncaught_scaler e)

  abbrev pub uncaught : {A : Type 0} → Result ScalerError A → Result CoverageError A
  uncaught (ok a) = ok a
  uncaught (err e) = err (uncaught_scaler e)

  -- The times and the scaler, which the loop over the subsets changes.
  abbrev pub State : Type 0
  State = List ℕ × Scaler fl

  pub subset_time : TimeModel → Extent → State → Result CoverageError State
  unfolding slice_time
  subset_time tm (trim_text low high) (times, s) = trim_times tm low high times >>= λ ts. ok (ts, s)
  subset_time tm (slice_text point) (times, s) = slice_time tm point >>= λ ts. ok (ts, s)
  subset_time tm _ state = err type_error

  pub subset_axis : LayerGrid fl → String → String → Extent → State → Result CoverageError State
  subset_axis layer name dimension (trim_number low high) (times, s) =
      in_subset name (trim fl layer dimension low high s) >>= λ s'. ok (times, s')
  subset_axis layer name dimension (slice_number v) (times, s) =
      in_subset name (slice fl layer dimension v s) >>= λ s'. ok (times, s')
  subset_axis layer name dimension _ state = err type_error

  -- The loop over the subsets.
  unfoldable pub apply_subsets :
      LayerGrid fl → TimeModel → List Subset → State → Result CoverageError State
  unfolding subset_time subset_axis
  apply_subsets layer tm [] state = ok state
  apply_subsets layer tm (s ∷ ss) state =
      let dimension = lower s.dimension in
      (if dimension == "time"
        then subset_time tm s.extent state
        else subset_axis layer s.dimension dimension s.extent state)
      >>= λ state'. apply_subsets layer tm ss state'

  pub apply_scale : LayerGrid fl → Scale → Scaler fl → Result CoverageError (Scaler fl)
  apply_scale layer scale s =
      let axis = lower scale.axis in
      raise_if (contains axis ("time" ∷ "k" ∷ [])) (cannot_scale_axis scale.axis)
      >> uncaught (elim scale.scaling [
        | by_factor f ↦ scale_axis fl layer axis f s
        | to_size n ↦ scale_size fl layer axis (whole n) s
        | to_extent low high ↦ scale_extent fl layer axis low high s
      ])

  -- The loop over the scales.
  unfoldable pub apply_scales :
      LayerGrid fl → List Scale → Scaler fl → Result CoverageError (Scaler fl)
  unfolding apply_scale
  apply_scales layer [] s = ok s
  apply_scales layer (scale ∷ scales) s =
      apply_scale layer scale s >>= λ s'. apply_scales layer scales s'

  -- What the code reads of the layer.
  pub record CoverageLayer : Type 0 where
    pub wcs : Bool
    pub native_crs : String
    pub native_format : Option Format
    pub times : List ℕ
    pub time_model : TimeModel
    pub band_labels : List String
    pub grid : LayerGrid fl

  pub record CoverageRequest : Type 0 where
    pub coverage_id : String
    pub subsetting_crs : Option String
    pub output_crs : Option String
    pub subsets : List Subset
    pub scales : List Scale
    pub range_subset : List RangeItem
    pub format : Option String

  pub record CoveragePlan : Type 0 where
    pub crs : String
    pub times : List ℕ
    pub bands : List String
    pub format : Format
    pub scaler : Scaler fl
    pub transform : Affine fl

  -- The lookup of the coverage among the layers.
  pub find_coverage : Dict String CoverageLayer → String → Result CoverageError CoverageLayer
  find_coverage layer_index name = do
    layer ← or_raise (lookup name layer_index) (no_such_coverage name)
    raise_if (not layer.wcs) (no_such_coverage name)
    ok layer

  -- `a or b` for a text that may be None or empty
  abbrev or_text : Option String → String → String
  or_text none b = b
  or_text (some a) b = if a == "" then b else a

  module _ (to_crs_point : String → String → fl.F → fl.F → fl.F × fl.F)
      (to_crs_box : String → String → Shape fl → Bounds fl) (published : String → Bool)
      (formats : Dict String Format) where
    -- The choice of the two coordinate systems.
    pub request_crs : CoverageLayer → CoverageRequest → Result CoverageError (String × String)
    request_crs layer request = do
      subsetting ← uniform_crs published (or_text request.subsetting_crs layer.native_crs)
      raise_if (not (published subsetting)) (subsetting_crs_not_supported subsetting)
      output ← uniform_crs published (or_text request.output_crs subsetting)
      raise_if (not (published output)) (output_crs_not_supported output)
      ok (subsetting, output)

    -- The times, and the scaler with its extent and sizes.
    pub request_extent :
        CoverageLayer → CoverageRequest → String → String → Result CoverageError State
    unfolding apply_subsets apply_scales has_duplicates
    request_extent layer request subsetting output = do
      raise_if (has_duplicates (map (λ s. lower s.dimension) request.subsets)) duplicate_dimensions
      (times, s) ←
          apply_subsets layer.grid layer.time_model request.subsets
            (layer.times, new_scaler fl layer.grid subsetting)
      s1 ← uncaught (to_crs fl layer.grid to_crs_point to_crs_box output s)
      raise_if (has_duplicates (map (λ s. lower s.axis) request.scales)) duplicate_axes
      s2 ← apply_scales layer.grid request.scales s1
      ok (times, s2)

    -- The rest of `get_coverage_data`, on the layer of the request, up to the loading of data
    unfoldable pub coverage_plan :
        CoverageLayer → CoverageRequest → Result CoverageError CoveragePlan
    unfolding request_crs request_extent request_format
    coverage_plan layer request = do
      (subsetting, output) ← request_crs layer request
      (times, s) ← request_extent layer request subsetting output
      bands ← request_bands layer.band_labels request.range_subset
      fmt ← request_format formats layer.native_format request.format
      raise_if (ltb 1 (length times) && not fmt.multi_time) no_multi_time
      (s', transform) ← uncaught (affine fl layer.grid s)
      ok (record {
        crs = output;
        times = times;
        bands = bands;
        format = fmt;
        scaler = s';
        transform = transform;
      })

    -- `get_coverage_data`, up to the loading of data
    unfoldable pub get_coverage_plan :
        Dict String CoverageLayer → CoverageRequest → Result CoverageError CoveragePlan
    unfolding find_coverage
    get_coverage_plan layer_index request = do
      layer ← find_coverage layer_index request.coverage_id
      coverage_plan layer request
