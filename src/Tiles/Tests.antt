-- ===== src/Tiles/Tests.antt =====
-- Runs of tile requests.
use datacube_ows.Base.{
  ◌≡◌, refl, true, false, some, none, [], ◌∷◌, ok, ◌==◌, string_eq, String, if◌then◌else◌,
}
use datacube_ows.Base.Int.{ℤ, pos, negsuc, ltb_ℤ, ◌*ℤ◌}
use datacube_ows.Base.Float.{thousandths, quot}
use datacube_ows.Base.Decimal.{py_int}
use datacube_ows.Tiles.Sets.{
  wms_bbox_coords, RawTileMatrixSet, elems, Elem, int, float, TileMatrixSet, new_tile_matrix_set,
  bbox_at, get_geobox_xy, Box,
}
use datacube_ows.Tiles.Sets.Boxes.{TileBox}
use datacube_ows.Tiles.Requests.{
  nothing, shown_sections, Args, Sets, WmsArgs, print_box, wmts_args_to_wms,
}
use datacube_ows.Tiles.Requests.Laws.{Names, shown_sections-named, wmts_args_to_wms-extent}

two_sections :
    shown_sections (some "Contents,themes") ≡ ok (record nothing { contents = true; themes = true })
two_sections = shown_sections-named (some "Contents,themes")

abbrev elem : ℤ → Elem thousandths
elem z = float z

abbrev raw_set : RawTileMatrixSet thousandths
raw_set = record {
  crs = "EPSG:4326";
  matrix_origin = elems (elem (negsuc 179_999) ∷ elem (pos 90_000) ∷ []);
  tile_size = elems (int (pos 256) ∷ int (pos 256) ∷ []);
  scale_set = elems (elem (pos 100_000_000) ∷ elem (pos 50_000_000) ∷ []);
  force_raw_crs_name = false;
  wkss = some "wkss4326";
  matrix_exponent_initial_offsets = none;
  unit_coefficients = none;
}

abbrev tms : TileMatrixSet thousandths
tms = record {
  crs_name = "EPSG:4326";
  matrix_origin = (negsuc 179_999, pos 90_000);
  tile_size = (pos 256, pos 256);
  scale_set = pos 100_000_000 ∷ pos 50_000_000 ∷ [];
  force_raw_crs_name = false;
  wkss = some "wkss4326";
  initial_matrix_exponents = (pos 0, pos 0);
  unit_coefficients = (pos 1000, negsuc 999);
}

set_run : new_tile_matrix_set thousandths (λ s. s == "EPSG:4326") raw_set ≡ ok tms
unfolding new_tile_matrix_set ◌*ℤ◌ quot
set_run = refl

abbrev sets : Sets thousandths
sets = ("grid", tms) ∷ []

abbrev tile_args : Args
tile_args =
    ("requestid", "r1")
    ∷ ("tilematrixset", "wkss4326")
    ∷ ("tilematrix", "1")
    ∷ ("tilerow", "2")
    ∷ ("tilecol", "3")
    ∷ ("layer", "ls8")
    ∷ []

-- Some printing of numbers.
abbrev print : ℤ → String
print z = if ltb_ℤ z (pos 0) then "-1.000000" else "1.000000"

abbrev wms : WmsArgs thousandths
wms = record {
  styles = none;
  layers = some "ls8";
  time = "";
  width = 256;
  height = 256;
  format = none;
  requestid = "r1";
  crs = "EPSG:4326";
  bbox =
      print_box thousandths print (bbox_at thousandths true tms (pos 50_000_000) (pos 2) (pos 3));
  pixel = none;
  ows_stats = false;
}

tile_run : wmts_args_to_wms thousandths print sets (λ _. true) tile_args ≡ ok wms
unfolding wmts_args_to_wms py_int wms_bbox_coords
tile_run = refl

wmts_args_to_wms-extent_example :
    (t : TileMatrixSet thousandths) × (scale : ℤ) × (row : ℤ) × (col : ℤ) × (box : Box thousandths)
    × Names thousandths sets tile_args t scale row col
    × (wms.crs ≡ t.crs_name)
    × (wms.bbox ≡ print_box thousandths print box)
    × TileBox thousandths t scale row col (get_geobox_xy thousandths true box)
wmts_args_to_wms-extent_example =
    wmts_args_to_wms-extent thousandths print sets (λ _. true) tile_args wms tile_run
