-- ===== src/Wcs/Scaler.antt =====
-- `class WCSScaler` and `class SpatialParameter` (datacube_ows/wcs_scaler.py). Bounds that are not set,
-- or open, are None; arithmetic on them is a TypeError. The reprojection of a geometry comes from the
-- package odc.geo: a parameter.

use datacube_ows.Base.{
  Bool, true, false, ◌&&◌, ◌||◌, Option, none, some, [], ◌∷◌, String, ◌==◌, string_eq,
  if◌then◌else◌, Result, ok, err, ◌>>=◌, ◌>>◌, raise_if, contains,
}
use datacube_ows.Base.Int.{ℤ, pos, leb_ℤ}
use datacube_ows.Base.Text.{lower}
use datacube_ows.Base.Float.{Floats}

pub data ScalerError : Type 0 where
  unknown_dimension : String → ScalerError
  overspecified_dimension illegal_size type_error zero_division : ScalerError

pub data Axis : Type 0 where
  x_axis y_axis : Axis

-- A value for each axis.
pub record Pair (A : Type 0) : Type 0 where
  pub x : A
  pub y : A

abbrev pub at : {A : Type 0} → Axis → Pair A → A
at x_axis p = p.x
at y_axis p = p.y

abbrev pub put : {A : Type 0} → Axis → A → Pair A → Pair A
put x_axis a p = record p { x = a }
put y_axis a p = record p { y = a }

-- The names of the axes of a coordinate system.
pub record AxisNames : Type 0 where
  pub horizontal_coord : String
  pub vertical_coord : String

-- `is_x_dim`: the axis that a dimension means.
unfoldable pub axis_of : AxisNames → AxisNames → String → Result ScalerError Axis
axis_of crs_def native dimension =
    if dimension == lower crs_def.horizontal_coord
    then ok x_axis
    else if dimension == lower crs_def.vertical_coord
    then ok y_axis
    else if dimension == lower native.horizontal_coord
    then ok x_axis
    else if dimension == lower native.vertical_coord
    then ok y_axis
    else if contains dimension ("x" ∷ "i" ∷ "lon" ∷ "long" ∷ "lng" ∷ "longitude" ∷ [])
    then ok x_axis
    else if contains dimension ("y" ∷ "j" ∷ "lat" ∷ "latitude" ∷ [])
    then ok y_axis
    else err (unknown_dimension dimension)

abbrev pub has_size : Option ℤ → Bool
has_size none = false
has_size (some _) = true

module _ (fl : Floats) where
  open fl use {F, from_ℤ, decimal, add, sub, mul, div, abs, lt, eq, trunc}

  pub record Bounds : Type 0 where
    pub left : F
    pub right : F
    pub bottom : F
    pub top : F

  abbrev pub corners_of : F → F → F → F → Bounds
  corners_of l r b t = record { left = l; right = r; bottom = b; top = t }

  -- What the scaler reads of the layer and the configuration, by the name of a coordinate system.
  pub record LayerGrid : Type 0 where
    pub native : AxisNames
    pub axis_names : String → AxisNames
    pub resolution : String → Pair F
    pub bboxes : String → Bounds

  -- A geometry to reproject: a point, a line or a rectangle between two corners.
  pub data Shape : Type 0 where
    point : F → F → Shape
    line rectangle : Bounds → Shape

  pub record Scaler : Type 0 where
    pub crs_def : AxisNames
    pub crs : String
    pub lows : Pair (Option F)
    pub highs : Pair (Option F)
    pub size : Pair (Option ℤ)
    pub subsetted : Pair Bool

  abbrev both : {A : Type 0} → A → Pair A
  both a = record { x = a; y = a }

  -- `WCSScaler(layer, crs)`
  abbrev pub new_scaler : LayerGrid → String → Scaler
  new_scaler layer crs = record {
    crs_def = layer.axis_names crs;
    crs = crs;
    lows = both none;
    highs = both none;
    size = both none;
    subsetted = both false;
  }

  -- A size as it is given: an int, or a float that is rounded.
  pub data Size : Type 0 where
    whole : ℤ → Size
    real : F → Size

  abbrev pub zero : F
  zero = decimal (pos 0) 1

  -- `size <= 0`
  pub not_positive : Size → Bool
  not_positive (whole n) = leb_ℤ n (pos 0)
  not_positive (real s) = lt s zero || eq s zero

  pub rounded : Size → ℤ
  rounded (whole n) = n
  rounded (real s) = trunc (add s (decimal (pos 5) 1))

  -- `set_size` on an axis
  unfoldable pub set_axis_size : Axis → Size → Scaler → Result ScalerError Scaler
  unfolding not_positive rounded
  set_axis_size axis size self = do
    raise_if (not_positive size) illegal_size
    elim (at axis self.size) [
      | none ↦ ok (record self { size = put axis (some (rounded size)) self.size })
      | some _ ↦ err overspecified_dimension
    ]

  pub set_size : LayerGrid → String → Size → Scaler → Result ScalerError Scaler
  unfolding not_positive
  set_size layer dimension size self = do
    raise_if (not_positive size) illegal_size
    axis ← axis_of self.crs_def layer.native dimension
    set_axis_size axis size self

  -- `trim`; `slice` is a trim to one value.
  unfoldable pub trim :
      LayerGrid → String → Option F → Option F → Scaler → Result ScalerError Scaler
  trim layer dimension lower_bound higher_bound self = do
    axis ← axis_of self.crs_def layer.native dimension
    ok (record self {
      lows = put axis lower_bound self.lows;
      highs = put axis higher_bound self.highs;
      subsetted = put axis true self.subsetted;
    })

  unfoldable pub slice : LayerGrid → String → F → Scaler → Result ScalerError Scaler
  unfolding trim
  slice layer dimension value self = trim layer dimension (some value) (some value) self

  abbrev pub same_bound : Option F → Option F → Bool
  same_bound none none = true
  same_bound (some a) (some b) = eq a b
  same_bound none (some b) = false
  same_bound (some a) none = false

  -- `is_slice`
  pub is_slice : LayerGrid → String → Scaler → Result ScalerError Bool
  is_slice layer dimension self = do
    axis ← axis_of self.crs_def layer.native dimension
    ok (at axis self.subsetted && same_bound (at axis self.lows) (at axis self.highs))
