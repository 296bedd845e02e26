-- ===== src/Config/Grids.antt =====
-- The native coordinate system and resolution of a layer, and its grids in all published coordinate
-- systems (`ready_native_specs` and `ready_wcs` of class OWSNamedLayer, datacube_ows/ows_configuration.py).
-- What is logged is left out. The entries of a resolution are floats.
pub mod Gridded
mod Tests
use datacube_ows.Base.{
  ◌+◌, Bool, true, false, not, Option, none, some, List, [], ◌∷◌, String, Result, ok, err, ◌>>=◌,
  ◌>>◌, raise_if, or_raise, Dict, lookup, ◌==◌, string_eq, if◌then◌else◌,
}
use datacube_ows.Base.Int.{ℤ, pos, pos_part, neg_part, ltb_ℤ}
use datacube_ows.Base.Float.{Floats}
use datacube_ows.Config.Crs.{CrsDef, collect}

pub data GridError : Type 0 where
  -- A ConfigException, by what it is about.
  no_native_crs : GridError
  unpublished : String → GridError
  no_resolution invalid_resolution : GridError
  narrow low high_x high_y : GridError
  -- Exceptions that the code does not catch.
  value_error zero_division : GridError

-- The native coordinate system: that of the metadata of the product, or else that of the configuration.
unfoldable pub native_crs :
    Option String → Option String → Dict String CrsDef → Result GridError (String × CrsDef)
native_crs of_product configured published = do
  name ← or_raise (elim of_product [ some c ↦ some c | none ↦ configured ]) no_native_crs
  raise_if (name == "") no_native_crs
  def ← or_raise (lookup name published) (unpublished name)
  ok (name, def)

module _ (fl : Floats) where
  open fl use {F, from_ℤ, sub, div, abs, lt, eq, trunc}

  pub record Bounds : Type 0 where
    pub left : F
    pub bottom : F
    pub right : F
    pub top : F

  -- Two numbers, where the code assigns to two names.
  pub two : List F → Option (F × F)
  two (x ∷ y ∷ []) = some (x, y)
  two _ = none

  -- The resolution of the metadata, by the names of the coordinates.
  pub product_resolution : Dict String F → CrsDef → Option (F × F)
  product_resolution resolution def = elim (lookup def.horizontal_coord resolution) [
    | none ↦ none
    | some x ↦ elim (lookup def.vertical_coord resolution) [ none ↦ none | some y ↦ some (x, y) ]
  ]

  -- The configured resolution beside one of the metadata: it is only compared, but has to be two numbers
  -- if it is given.
  pub overridden : Option (List F) → F × F → Result GridError (F × F)
  unfolding two
  overridden none native = ok native
  overridden (some []) native = ok native
  overridden (some (x ∷ xs)) native = or_raise (two (x ∷ xs)) value_error >>= λ _. ok native

  unfoldable pub native_resolution :
      Dict String F → Option (List F) → CrsDef → Result GridError (F × F)
  unfolding product_resolution overridden
  native_resolution resolution configured def = elim (product_resolution resolution def) [
    | some native ↦ overridden configured native
    | none ↦ elim configured [
      | none ↦ err no_resolution
      | some values ↦ or_raise (two values) invalid_resolution
    ]
  ]

  pub record Grid : Type 0 where
    pub origin : F × F
    pub resolution : F × F

  pub record Grids : Type 0 where
    pub origin : F × F
    pub grid_high_x : ℤ
    pub grid_high_y : ℤ
    pub grids : Dict String Grid

  -- How a layer is left: without WCS, hidden for want of a bounding box, or with its grids.
  pub data WcsState : Type 0 where
    not_served hidden : WcsState
    gridded : Grids → WcsState

  -- The grid in a published coordinate system.
  pub grid_in : Dict String Bounds → String → Bounds → F × F → ℤ → ℤ → String → CrsDef → Option Grid
  grid_in bboxes native box resolution across down crs def =
      if crs == native
      then some (record { origin = (box.left, box.bottom); resolution = resolution })
      else elim (lookup crs bboxes) [
        | none ↦ none
        | some other ↦ some (record {
          origin = (other.left, other.bottom);
          resolution = (
            div (sub other.right other.left) (from_ℤ across),
            div (sub other.top other.bottom) (from_ℤ down),
          );
        })
      ]

  abbrev abs_ℤ : ℤ → ℤ
  abs_ℤ z = pos (pos_part z + neg_part z)

  -- The sizes of the native grid, which have to be positive.
  pub high_of : Bounds → F × F → Result GridError (ℤ × ℤ)
  high_of box (res_x, res_y) = do
    raise_if (lt (abs (sub box.right box.left)) (abs res_x)) narrow
    raise_if (lt (abs (sub box.top box.bottom)) (abs res_y)) low
    raise_if (eq res_x (from_ℤ (pos 0))) zero_division
    let grid_high_x = abs_ℤ (trunc (div (sub box.right box.left) res_x))
    raise_if (eq res_y (from_ℤ (pos 0))) zero_division
    let grid_high_y = trunc (div (sub box.bottom box.top) res_y)
    raise_if (not (ltb_ℤ (pos 0) grid_high_x)) high_x
    raise_if (not (ltb_ℤ (pos 0) grid_high_y)) high_y
    ok (grid_high_x, grid_high_y)

  -- `ready_wcs`; `served` tells whether both the configuration and the layer have WCS.
  unfoldable pub ready_wcs :
      Bool → Dict String CrsDef → Dict String Bounds → String → F × F → Result GridError WcsState
  unfolding high_of grid_in
  ready_wcs false published bboxes native resolution = ok not_served
  ready_wcs true published bboxes native resolution = elim (lookup native bboxes) [
    | none ↦ ok hidden
    | some box ↦ high_of box resolution >>= λ highs. ok (
        gridded (record {
          origin = (box.left, box.bottom);
          grid_high_x = highs.0;
          grid_high_y = highs.1;
          grids = collect (grid_in bboxes native box resolution highs.0 highs.1) [] published;
        }))
  ]
