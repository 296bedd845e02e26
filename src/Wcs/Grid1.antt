-- ===== src/Wcs/Grid1.antt =====
-- The bounding box, the size and the transformation of a WCS 1 request (class WCS1GetCoverageRequest,
-- datacube_ows/wcs1_utils.py). `parse_float` is Python's float() of a text that is a finite number. The
-- reprojection of a box comes from the package odc.geo: a parameter.
pub mod Sizes
use datacube_ows.Base.{
  ℕ, Bool, true, false, not, ◌||◌, Option, none, some, List, [], ◌∷◌, String, Result, ok, err,
  ◌>>=◌, ◌>>◌, raise_if, or_raise, lookup, has_key, traverse, ◌==◌, string_eq, if◌then◌else◌,
}
use datacube_ows.Base.Int.{ℤ, pos, ltb_ℤ, int_eq}
use datacube_ows.Base.Text.{codes, split}
use datacube_ows.Base.Decimal.{py_int}
use datacube_ows.Base.Float.{Floats}
use datacube_ows.Wcs.Request1.{
  Wcs1Error, wcs1_exception, zero_division, missing_parameter_value, Args, missing, invalid,
  required,
}

abbrev pub sizes_or_resolutions : String
sizes_or_resolutions = "RESX/RESY/WIDTH/HEIGHT parameters"

-- `int(text)`, which has to be 1 at least
unfoldable pub positive_int : String → Option ℤ
positive_int text = elim (py_int (codes text)) [
  | none ↦ none
  | some n ↦ if ltb_ℤ n (pos 1) then none else some n
]

module _ (fl : Floats) where
  open fl use {F, from_ℤ, decimal, add, sub, div, lt, eq, trunc}

  pub record Box1 : Type 0 where
    pub min_x : F
    pub min_y : F
    pub max_x : F
    pub max_y : F

  pub record Size1 : Type 0 where
    pub width : ℤ
    pub height : ℤ
    pub resx : F
    pub resy : F

  pub record Affine1 : Type 0 where
    pub x_scale : F
    pub x_offset : F
    pub y_scale : F
    pub y_offset : F

  -- `map(float, args['bbox'].split(','))`, which has to give four numbers
  pub box_of : List (Option F) → Option Box1
  box_of (some a ∷ some b ∷ some c ∷ some d ∷ []) =
      some (record { min_x = a; min_y = b; max_x = c; max_y = d })
  box_of _ = none

  abbrev floats_in : (String → Option F) → List String → List (Option F)
  floats_in parse_float [] = []
  floats_in parse_float (t ∷ ts) = parse_float t ∷ floats_in parse_float ts

  unfoldable pub request_box : (String → Option F) → Args → Result Wcs1Error Box1
  unfolding box_of
  request_box parse_float args = do
    text ← required args "bbox" "BBOX or TIME parameter"
    or_raise (box_of (floats_in parse_float (split b',' text))) (invalid "BBOX parameter")

  -- The box in the coordinate system of the response; `same_crs` is the `==` of the package odc.geo.
  unfoldable pub response_box :
      (String → String → Bool) → (String → String → Box1 → Box1) → String → String → Box1 → Box1
  response_box same_crs to_crs request_crs response_crs box =
      if same_crs request_crs response_crs then box else to_crs request_crs response_crs box

  -- `float(text)`, which has to be positive
  unfoldable pub positive_float : (String → Option F) → String → Option F
  positive_float parse_float text = elim (parse_float text) [
    | none ↦ none
    | some x ↦ if lt x (decimal (pos 0) 1) || eq x (decimal (pos 0) 1) then none else some x
  ]

  -- The branch for WIDTH.
  pub by_size : Args → Box1 → String → Result Wcs1Error Size1
  unfolding positive_int
  by_size args box width_text = do
    raise_if (has_key "resx" args || has_key "resy" args)
        (wcs1_exception missing_parameter_value sizes_or_resolutions)
    height_text ← required args "height" "WIDTH/HEIGHT parameters"
    height ← or_raise (positive_int height_text) (invalid "HEIGHT parameter")
    width ← or_raise (positive_int width_text) (invalid "WIDTH parameter")
    ok (record {
      width = width;
      height = height;
      resx = div (sub box.max_x box.min_x) (from_ℤ width);
      resy = div (sub box.max_y box.min_y) (from_ℤ height);
    })

  -- The branch for RESX; the sizes are rounded, and not checked.
  pub by_resolution : (String → Option F) → Args → Box1 → String → Result Wcs1Error Size1
  unfolding positive_float
  by_resolution parse_float args box resx_text = do
    raise_if (has_key "height" args) (wcs1_exception missing_parameter_value sizes_or_resolutions)
    resy_text ← required args "resy" "RESX/RESY parameters"
    resx ← or_raise (positive_float parse_float resx_text) (invalid "RESX parameter")
    resy ← or_raise (positive_float parse_float resy_text) (invalid "RESY parameter")
    ok (record {
      width = trunc (add (div (sub box.max_x box.min_x) resx) (decimal (pos 5) 1));
      height = trunc (add (div (sub box.max_y box.min_y) resy) (decimal (pos 5) 1));
      resx = resx;
      resy = resy;
    })

  unfoldable pub request_size : (String → Option F) → Args → Box1 → Result Wcs1Error Size1
  unfolding by_size by_resolution
  request_size parse_float args box = elim (lookup "width" args) [
    | some width_text ↦ by_size args box width_text
    | none ↦ elim (lookup "resx" args) [
      | some resx_text ↦ by_resolution parse_float args box resx_text
      | none ↦
          if has_key "height" args
          then missing "WIDTH/HEIGHT parameters"
          else if has_key "resy" args
          then missing "RESX/RESY parameters"
          else missing sizes_or_resolutions
    ]
  ]

  -- `Affine.translation(minx, maxy) * Affine.scale(xscale, yscale)`; a size of 0 divides by zero.
  unfoldable pub request_affine : Box1 → Size1 → Result Wcs1Error Affine1
  request_affine box size = do
    raise_if (size.width == pos 0 || size.height == pos 0) zero_division
    ok (record {
      x_scale = div (sub box.max_x box.min_x) (from_ℤ size.width);
      x_offset = box.min_x;
      y_scale = div (sub box.min_y box.max_y) (from_ℤ size.height);
      y_offset = box.max_y;
    })
