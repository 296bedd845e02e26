-- ===== src/Wcs/Transform.antt =====
-- The second half of `class WCSScaler` (datacube_ows/wcs_scaler.py): the extent in the coordinate system
-- of the output, its size, and the affine transformation of the coverage.
pub mod Extents
use datacube_ows.Base.{
  ◌&&◌, ◌||◌, not, Option, some, String, ◌==◌, string_eq, if◌then◌else◌, Result, ok, ◌>>=◌, ◌>>◌,
  raise_if, or_raise,
}
use datacube_ows.Base.Int.{pos}
use datacube_ows.Base.Float.{Floats}
use datacube_ows.Wcs.Scaler.{
  ScalerError, overspecified_dimension, type_error, zero_division, x_axis, y_axis, Axis, at, put,
  axis_of, Bounds, LayerGrid, Scaler, Shape, line, rectangle, real, Size, zero, set_axis_size,
  set_size, is_slice, has_size, corners_of,
}

module _ (fl : Floats) where
  open fl use {F, from_ℤ, decimal, add, sub, mul, div, abs, lt, eq}

  -- The whole range of the layer on one axis.
  abbrev pub set_range : Axis → Bounds fl → Scaler fl → Scaler fl
  set_range x_axis b self = record self {
    lows = put x_axis (some b.left) self.lows;
    highs = put x_axis (some b.right) self.highs;
  }
  set_range y_axis b self = record self {
    lows = put y_axis (some b.bottom) self.lows;
    highs = put y_axis (some b.top) self.highs;
  }

  abbrev need : Option F → Result ScalerError F
  need v = or_raise v type_error

  -- The body of the loop of `quantise_to_resolution`, for a dimension and the resolution on its axis.
  pub quantise : LayerGrid fl → String → F → Scaler fl → Result ScalerError (Scaler fl)
  quantise layer dimension res self = do
    axis ← axis_of self.crs_def layer.native dimension
    high ← need (at axis self.highs)
    low ← need (at axis self.lows)
    let small = record self {
      highs = put axis (some (add low res)) self.highs;
      size = put axis (some (pos 1)) self.size;
    }
    let is_small = lt (abs (sub high low)) (abs (mul res (decimal (pos 15) 1)))
    ok (if is_small then small else self)

  pub quantise_to_resolution : (LayerGrid fl) → String → Scaler fl → Result ScalerError (Scaler fl)
  unfolding quantise
  quantise_to_resolution layer grid self = do
    self' ← quantise layer "x" (layer.resolution grid).x self
    quantise layer "y" (layer.resolution grid).y self'

  -- An affine transformation: the offsets and the scales of the axes.
  pub record Affine : Type 0 where
    pub x_offset : F
    pub y_offset : F
    pub x_scale : F
    pub y_scale : F

  module _ (layer : LayerGrid fl) where
    -- `scale_axis`
    unfoldable pub scale_axis : String → F → Scaler fl → Result ScalerError (Scaler fl)
    scale_axis dimension factor self = do
      axis ← axis_of self.crs_def layer.native dimension
      raise_if (has_size (at axis self.size)) overspecified_dimension
      high ← need (at axis self.highs)
      low ← need (at axis self.lows)
      let res = at axis (layer.resolution self.crs)
      set_axis_size fl axis (real (abs (div (mul (sub high low) factor) res))) self

    -- `scale_size`, and `scale_extent`, whose size is the difference of two numbers
    pub scale_size : String → Size fl → Scaler fl → Result ScalerError (Scaler fl)
    scale_size dimension size self = set_size fl layer dimension size self

    pub scale_extent : String → F → F → Scaler fl → Result ScalerError (Scaler fl)
    scale_extent dimension low high self = set_size fl layer dimension (real (sub high low)) self

    -- `if self.size.x is None: self.scale_axis("x", 1.0)`, and for y
    pub default_size : Axis → String → Scaler fl → Result ScalerError (Scaler fl)
    default_size axis name self =
        if has_size (at axis self.size) then ok self else scale_axis name (decimal (pos 10) 1) self

    abbrev extent_of : Axis → Scaler fl → Result ScalerError (F × F × F)
    extent_of axis self = do
      low ← need (at axis self.lows)
      high ← need (at axis self.highs)
      size ← or_raise (at axis self.size) type_error
      ok (low, high, from_ℤ size)

    -- `affine`, with the scaler that it leaves. A size of 0 would divide by zero.
    unfoldable pub affine : Scaler fl → Result ScalerError ((Scaler fl) × Affine)
    unfolding default_size
    affine self = do
      self1 ← default_size x_axis "x" self
      self2 ← default_size y_axis "y" self1
      (min_x, max_x, size_x) ← extent_of x_axis self2
      (min_y, max_y, size_y) ← extent_of y_axis self2
      raise_if (eq size_x (zero fl) || eq size_y (zero fl)) zero_division
      ok (
        self2,
        record {
          x_offset = min_x;
          y_offset = max_y;
          x_scale = div (sub max_x min_x) size_x;
          y_scale = div (sub min_y max_y) size_y;
        },
      )

    -- The ranges that the request leaves open, as the first part of `to_crs` fills them in.
    pub fill_ranges : String → Scaler fl → Scaler fl
    fill_ranges new_crs self =
        let here = layer.bboxes self.crs in
        let there = layer.bboxes new_crs in
        if self.subsetted.x
        then (if self.subsetted.y then self else set_range y_axis here self)
        else if self.subsetted.y
        then set_range x_axis here self
        else record (set_range x_axis there (set_range y_axis there self)) { crs = new_crs }

    module _ (to_crs_point : String → String → F → F → F × F)
        (to_crs_box : String → String → Shape fl → (Bounds fl)) where
      -- The reprojection of a point: a pixel of the new grid.
      pub project_point : String → Scaler fl → F → F → Scaler fl
      project_point new_crs self x y =
          let p = to_crs_point self.crs new_crs x y in
          let res = layer.resolution new_crs in
          record self {
            lows = record { x = some p.0; y = some p.1 };
            highs = record { x = some (add p.0 res.x); y = some (add p.1 res.y) };
            size = record { x = some (pos 1); y = some (pos 1) };
            crs = new_crs;
          }

      -- The reprojection of a line or a rectangle. An axis that was not subsetted beside one that was
      -- gets the whole range of the layer.
      pub project_box : String → Scaler fl → Shape fl → Result ScalerError (Scaler fl)
      unfolding quantise_to_resolution
      project_box new_crs self shape =
          let box = to_crs_box self.crs new_crs shape in
          let whole_layer = layer.bboxes new_crs in
          let skip_x = not self.subsetted.x && self.subsetted.y in
          let skip_y = self.subsetted.x && not self.subsetted.y in
          let with_x = set_range x_axis (if skip_x then whole_layer else box) self in
          let with_y = set_range y_axis (if skip_y then whole_layer else box) with_x in
          quantise_to_resolution layer new_crs with_y >>= λ done. ok (record done { crs = new_crs })

      pub reproject : String → Scaler fl → Result ScalerError (Scaler fl)
      unfolding project_point project_box
      reproject new_crs self = do
        min_x ← need self.lows.x
        max_x ← need self.highs.x
        min_y ← need self.lows.y
        max_y ← need self.highs.y
        let corners = corners_of fl min_x max_x min_y max_y
        slice_x ← is_slice fl layer "x" self
        slice_y ← is_slice fl layer "y" self
        let shape = if slice_x || slice_y then line corners else rectangle corners
        let pixel = ok (project_point new_crs self min_x min_y)
        let area = project_box new_crs self shape
        (if slice_x && slice_y then pixel else area)

      -- `to_crs`
      unfoldable pub to_crs : String → Scaler fl → Result ScalerError (Scaler fl)
      unfolding fill_ranges reproject quantise_to_resolution
      to_crs new_crs self =
          let filled = fill_ranges new_crs self in
          if filled.crs == new_crs
          then quantise_to_resolution layer new_crs filled
          else reproject new_crs filled
