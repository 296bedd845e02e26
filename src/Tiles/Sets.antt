-- ===== src/Tiles/Sets.antt =====
-- `class TileMatrixSet` (datacube_ows/tile_matrix_sets.py), and how a WMS request reads a bounding box
-- (`_get_geobox_xy` of datacube_ows/wms_utils.py).
pub mod Boxes
use datacube_ows.Base.{
  ℕ, Bool, true, false, not, Option, none, some, List, [], ◌∷◌, String, if◌then◌else◌, Result, ok,
  err, ◌>>=◌, ◌>>◌, raise_if, or_raise, traverse, length, nat_beq, get_elem?,
}
use datacube_ows.Base.Int.{ℤ, pos, negsuc, ◌+ℤ◌, ltb_ℤ}
use datacube_ows.Base.Float.{Floats}

-- The parts of a configuration that its errors name.
pub data Label : Type 0 where
  matrix_origin tile_size scale_set initial_exponents unit_coefficients : Label

pub data TmsError : Type 0 where
  unpublished_crs : String → TmsError
  not_two_values not_a_list wrong_type : Label → TmsError
  no_scales : TmsError

module _ (fl : Floats) where
  open fl use {F, from_ℤ, decimal, add, mul}

  -- An element of a configured list, and what stands where a list is wanted.
  pub data Elem : Type 0 where
    int : ℤ → Elem
    float : F → Elem
    other : Elem

  pub data RawArray : Type 0 where
    no_list : RawArray
    elems : List Elem → RawArray

  pub as_float : Label → Elem → Result TmsError F
  as_float label (float x) = ok x
  as_float label _ = err (wrong_type label)

  pub as_int : Label → Elem → Result TmsError ℤ
  as_int label (int z) = ok z
  as_int label _ = err (wrong_type label)

  -- `validate_array_typ`
  pub validate_array :
      {A : Type 0}
      → (Label → Elem → Result TmsError A)
      → Label
      → RawArray
      → Result TmsError (List A)
  validate_array as_typ label no_list = err (not_a_list label)
  validate_array as_typ label (elems es) = traverse (as_typ label) es

  pub pair_of : {A : Type 0} → Label → List A → Result TmsError (A × A)
  pair_of label (a ∷ b ∷ []) = ok (a, b)
  pair_of label _ = err (not_two_values label)

  -- `validate_2d_array`: the length first, then the types.
  pub validate_2d_array :
      {A : Type 0} → (Label → Elem → Result TmsError A) → Label → RawArray → Result TmsError (A × A)
  unfolding validate_array pair_of
  validate_2d_array as_typ label no_list = err (not_a_list label)
  validate_2d_array as_typ label (elems es) = do
    raise_if (not (nat_beq (length es) 2)) (not_two_values label)
    xs ← validate_array as_typ label (elems es)
    pair_of label xs

  pub record RawTileMatrixSet : Type 0 where
    pub crs : String
    pub matrix_origin : RawArray
    pub tile_size : RawArray
    pub scale_set : RawArray
    pub force_raw_crs_name : Bool
    pub wkss : Option String
    pub matrix_exponent_initial_offsets : Option RawArray
    pub unit_coefficients : Option RawArray

  pub record TileMatrixSet : Type 0 where
    pub crs_name : String
    pub matrix_origin : F × F
    pub tile_size : ℤ × ℤ
    pub scale_set : List F
    pub force_raw_crs_name : Bool
    pub wkss : Option String
    pub initial_matrix_exponents : ℤ × ℤ
    pub unit_coefficients : F × F

  abbrev or_default : RawArray → Option RawArray → RawArray
  or_default default none = default
  or_default default (some raw) = raw

  -- `__init__`; `published` tells the keys of `published_CRSs`.
  unfoldable pub new_tile_matrix_set :
      (String → Bool) → RawTileMatrixSet → Result TmsError TileMatrixSet
  unfolding validate_2d_array validate_array as_float as_int
  new_tile_matrix_set published cfg = do
    raise_if (not (published cfg.crs)) (unpublished_crs cfg.crs)
    origin ← validate_2d_array as_float matrix_origin cfg.matrix_origin
    size ← validate_2d_array as_int tile_size cfg.tile_size
    scales ← validate_array as_float scale_set cfg.scale_set
    raise_if (nat_beq (length scales) 0) no_scales
    exponents ←
        validate_2d_array as_int initial_exponents
          (or_default (elems (int (pos 0) ∷ int (pos 0) ∷ [])) cfg.matrix_exponent_initial_offsets)
    units ← validate_2d_array as_float unit_coefficients (
        or_default (elems (float (decimal (pos 10) 1) ∷ float (decimal (negsuc 9) 1) ∷ []))
          cfg.unit_coefficients)
    ok (record {
      crs_name = cfg.crs;
      matrix_origin = origin;
      tile_size = size;
      scale_set = scales;
      force_raw_crs_name = cfg.force_raw_crs_name;
      wkss = cfg.wkss;
      initial_matrix_exponents = exponents;
      unit_coefficients = units;
    })

  -- `exponent`, for the initial exponent of an axis
  pub exponent : ℤ → ℤ → ℤ
  exponent init scale_no = let e = scale_no +ℤ init in if ltb_ℤ e (pos 0) then pos 0 else e

  -- The span of a tile along one axis, and where the tile with a number begins.
  pub tile_span : F → F → ℤ → F
  tile_span scale_denominator u ts =
      mul (mul (mul scale_denominator (decimal (pos 28) 5)) u) (from_ℤ ts)

  pub tile_start : F → ℤ → F → F
  tile_start origin p span = add origin (mul (from_ℤ p) span)

  abbrev pub Box : Type 0
  Box = F × F × F × F

  -- `wms_bbox_coords` for the scale denominator of a tile matrix
  pub bbox_at : Bool → TileMatrixSet → F → ℤ → ℤ → Box
  unfolding tile_span tile_start
  bbox_at vertical_coord_first self scale_denominator row col =
      let span_x = tile_span scale_denominator self.unit_coefficients.0 self.tile_size.0 in
      let span_y = tile_span scale_denominator self.unit_coefficients.1 self.tile_size.1 in
      let min_x = tile_start self.matrix_origin.0 col span_x in
      let min_y = tile_start self.matrix_origin.1 row span_y in
      let max_x = add min_x span_x in
      let max_y = add min_y span_y in
      if vertical_coord_first then (max_y, min_x, min_y, max_x) else (min_x, max_y, max_x, min_y)

  -- `wms_bbox_coords`; `none` is an IndexError.
  unfoldable pub wms_bbox_coords : Bool → TileMatrixSet → ℕ → ℤ → ℤ → Option Box
  unfolding bbox_at
  wms_bbox_coords vertical_coord_first self tile_matrix row col =
      elim (get_elem? self.scale_set tile_matrix) [
        | none ↦ none
        | some scale ↦ some (bbox_at vertical_coord_first self scale row col)
      ]

  -- `_get_geobox_xy`: (minx, miny, maxx, maxy) from the four numbers of a request.
  unfoldable pub get_geobox_xy : Bool → Box → Box
  get_geobox_xy vertical_coord_first (a, b, c, d) =
      if vertical_coord_first then (b, a, d, c) else (a, b, c, d)
