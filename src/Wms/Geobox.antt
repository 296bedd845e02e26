-- ===== src/Wms/Geobox.antt =====
-- The box of a WMS request and its zoom factor (`_get_geobox_xy`, `_get_geobox`, `_get_polygon`,
-- `zoom_factor` and `_bounding_pts` of datacube_ows/wms_utils.py, and `create_geobox` of
-- datacube_ows/ogc_utils.py for both sizes). Coordinate systems and the reprojection of points come from
-- the package odc.geo: parameters.
use datacube_ows.Base.{
  ℕ, Bool, false, ◌&&◌, ◌||◌, Option, none, some, List, [], ◌∷◌, String, Result, ok, ◌>>=◌, ◌>>◌,
  raise_if, or_raise, Dict, lookup, ◌==◌, string_eq, nat_eq, if◌then◌else◌,
}
use datacube_ows.Base.Int.{ℤ, pos, negsuc, int_eq}
use datacube_ows.Base.Text.{codes, split}
use datacube_ows.Base.Decimal.{py_int}
use datacube_ows.Base.Float.{Floats}
use datacube_ows.Config.Crs.{CrsDef}
use datacube_ows.Tiles.Sets.{Box, get_geobox_xy}
use datacube_ows.Wcs.Grid1.{Affine1}
use datacube_ows.Wms.Params.{
  WmsError, wms_exception, no_code, key_error, value_error, zero_division, Args,
}

-- `args[name]`
abbrev pub needed_arg : Args → String → Result WmsError String
needed_arg args name = or_raise (lookup name args) (key_error name)

-- `int(args[name])`
unfoldable pub int_of_arg : Args → String → Result WmsError ℤ
int_of_arg args name = needed_arg args name >>= λ text. or_raise (py_int (codes text)) value_error

module _ (fl : Floats) (C : Type 0) where
  open fl use {F, from_ℤ, decimal, sub, mul, div, lt, eq}

  pub record CrsCalls : Type 0 where
    -- `float` and `math.sqrt`
    pub parse_float : String → Option F
    pub sqrt : F → Option F
    -- `CRS(name)`, `str(crs)`, `crs.epsg` and `==`
    pub new_crs : String → C
    pub crs_name : C → String
    pub epsg : C → Option ℕ
    pub same_crs : C → C → Bool
    -- `to_crs`, of a point and of a polygon
    pub to_crs : C → C → F × F → F × F
    pub polygon_to_crs : C → C → List (F × F) → List (F × F)

  pub record GeoBox : Type 0 where
    pub crs : C
    pub width : ℤ
    pub height : ℤ
    pub affine : Affine1 fl

  abbrev floats_in : (String → Option F) → List String → List (Option F)
  floats_in parse_float [] = []
  floats_in parse_float (t ∷ ts) = parse_float t ∷ floats_in parse_float ts

  -- Four numbers, as the assignment to four names wants them.
  pub four : List (Option F) → Option (Box fl)
  four (some a ∷ some b ∷ some c ∷ some d ∷ []) = some (a, b, c, d)
  four _ = none

  unfoldable pub geobox_xy : CrsCalls → Dict String CrsDef → Args → C → Result WmsError (Box fl)
  unfolding four
  geobox_xy calls published args crs = do
    def ← or_raise (lookup (calls.crs_name crs) published) (key_error (calls.crs_name crs))
    text ← needed_arg args "bbox"
    given ← or_raise (four (floats_in calls.parse_float (split b',' text))) value_error
    ok (get_geobox_xy fl def.vertical_coord_first given)

  -- `create_geobox`, for a width and a height.
  unfoldable pub create_geobox : C → Box fl → ℤ → ℤ → Result WmsError GeoBox
  create_geobox crs (minx, miny, maxx, maxy) width height = do
    raise_if (height == pos 0) zero_division
    raise_if (width == pos 0) zero_division
    ok (record {
      crs = crs;
      width = width;
      height = height;
      affine = record {
        x_scale = div (sub maxx minx) (from_ℤ width);
        x_offset = minx;
        y_scale = div (sub miny maxy) (from_ℤ height);
        y_offset = maxy;
      };
    })

  -- Whether a box is in EPSG:3857 and nearer to the antimeridian.
  pub nearer_antimeridian : CrsCalls → C → Box fl → Bool
  nearer_antimeridian calls crs (minx, miny, maxx, maxy) = elim (calls.epsg crs) [
    | none ↦ false
    | some code ↦
        code == 3857 && (lt maxx (from_ℤ (negsuc 12_999_999)) || lt (from_ℤ (pos 13_000_000)) minx)
  ]

  -- The box and its coordinate system, in EPSG:3832 where that is nearer.
  pub pacific_box : CrsCalls → C → Box fl → C × Box fl
  unfolding nearer_antimeridian
  pacific_box calls crs (minx, miny, maxx, maxy) =
      let pacific = calls.new_crs "epsg:3832" in
      let ll = calls.to_crs crs pacific (minx, miny) in
      let ur = calls.to_crs crs pacific (maxx, maxy) in
      if nearer_antimeridian calls crs (minx, miny, maxx, maxy)
      then (pacific, (ll.0, ll.1, ur.0, ur.1))
      else (crs, (minx, miny, maxx, maxy))

  abbrev pub no_area : Box fl → Bool
  no_area (minx, miny, maxx, maxy) = eq minx maxx || eq miny maxy

  -- `_get_geobox`
  unfoldable pub get_geobox : CrsCalls → Dict String CrsDef → Args → C → Result WmsError GeoBox
  unfolding pacific_box
  get_geobox calls published args crs = do
    width ← int_of_arg args "width"
    height ← int_of_arg args "height"
    box ← geobox_xy calls published args crs
    raise_if (no_area box) (wms_exception no_code "")
    let placed = pacific_box calls crs box
    create_geobox placed.0 placed.1 width height

  -- The points of `_get_polygon`.
  unfoldable pub polygon_of : Box fl → List (F × F)
  polygon_of (minx, miny, maxx, maxy) =
      (minx, maxy) ∷ (minx, miny) ∷ (maxx, miny) ∷ (maxx, maxy) ∷ (minx, maxy) ∷ []

  -- Python's `min` and `max`, of two.
  abbrev min_of : F → F → F
  min_of a b = if lt b a then b else a

  abbrev max_of : F → F → F
  max_of a b = if lt a b then b else a

  -- `_bounding_pts`, with a coordinate system to go to.
  pub bounding_pts : CrsCalls → Box fl → C → C → Box fl
  bounding_pts calls (minx, miny, maxx, maxy) src_crs dst_crs =
      let p1 = calls.to_crs src_crs dst_crs (minx, maxy) in
      let p2 = calls.to_crs src_crs dst_crs (minx, miny) in
      let p3 = calls.to_crs src_crs dst_crs (maxx, maxy) in
      let p4 = calls.to_crs src_crs dst_crs (maxx, miny) in
      (
        min_of (min_of (min_of p1.0 p2.0) p3.0) p4.0,
        min_of (min_of (min_of p1.1 p2.1) p3.1) p4.1,
        max_of (max_of (max_of p1.0 p2.0) p3.0) p4.0,
        max_of (max_of (max_of p1.1 p2.1) p3.1) p4.1,
      )

  -- The reciprocal of the square root of the determinant, which is the product of the two scales.
  pub zoom_of : CrsCalls → Box fl → ℤ → ℤ → Result WmsError F
  zoom_of calls (minx, miny, maxx, maxy) width height = do
    raise_if (width == pos 0) zero_division
    raise_if (height == pos 0) zero_division
    let x_scale = div (sub maxx minx) (from_ℤ width)
    let y_scale = div (sub maxy miny) (from_ℤ height)
    root ← or_raise (calls.sqrt (mul x_scale y_scale)) value_error
    raise_if (eq root (from_ℤ (pos 0))) zero_division
    ok (div (from_ℤ (pos 1)) root)

  unfoldable pub zoom_factor : CrsCalls → Dict String CrsDef → Args → C → Result WmsError F
  unfolding bounding_pts zoom_of
  zoom_factor calls published args crs = do
    width ← int_of_arg args "width"
    height ← int_of_arg args "height"
    box ← geobox_xy calls published args crs
    zoom_of calls (bounding_pts calls box crs (calls.new_crs "epsg:4326")) width height
