-- ===== src/Config/Grids/Tests.antt =====
-- Runs of the native specifications and the grids of a layer.
use datacube_ows.Base.{
  ◌≡◌, refl, true, false, none, some, [], ◌∷◌, String, Dict, ok, err, lookup, string_eq,
}
use datacube_ows.Base.Int.{ℤ, pos, negsuc, ltb_ℤ, ◌*ℤ◌, ◌-ℤ◌}
use datacube_ows.Base.Float.{thousandths, quot}
use datacube_ows.Config.Crs.{RawCrs, defined, CrsDef, CrsTable, make_gml_name, parse_crses, collect}
use datacube_ows.Config.Grids.{
  Bounds, Grids, gridded, hidden, value_error, high_y, native_crs, native_resolution, ready_wcs,
}
use datacube_ows.Config.Grids.Gridded.{GridFor, ready_wcs-grids}

abbrev raws : Dict String RawCrs
raws =
    (
      "EPSG:3857",
      defined (record {
        geographic = some false;
        horizontal_coord = some "x";
        vertical_coord = some "y";
        vertical_coord_first = none;
      }),
    )
    ∷ []

abbrev flat : String → CrsDef
flat gml = record {
  geographic = false;
  horizontal_coord = "x";
  vertical_coord = "y";
  vertical_coord_first = false;
  gml_name = gml;
  alias_of = none;
}

abbrev mercator : CrsDef
mercator = flat "http://www.opengis.net/def/crs/EPSG/0/3857"

abbrev table : CrsTable
table = record {
  crses =
      ("EPSG:3857", mercator)
      ∷ ("EPSG:3832", flat "http://www.opengis.net/def/crs/EPSG/0/3832")
      ∷ [];
  internal = ("EPSG:3857", mercator) ∷ [];
  default_geographic = "";
}

crses-parsed : parse_crses false raws ≡ ok table
unfolding parse_crses make_gml_name
crses-parsed = refl

abbrev bounds : ℤ → Bounds thousandths
bounds left = record { left = left; bottom = pos 0; right = pos 100_000; top = pos 200_000 }

abbrev bboxes : Dict String (Bounds thousandths)
bboxes = ("EPSG:3857", bounds (pos 0)) ∷ ("EPSG:3832", bounds (pos 50_000)) ∷ []

-- 10 units across and down
abbrev grids : Grids thousandths
grids = record {
  origin = (pos 0, pos 0);
  grid_high_x = pos 10;
  grid_high_y = pos 20;
  grids =
      ("EPSG:3857", record { origin = (pos 0, pos 0); resolution = (pos 10_000, negsuc 9_999) })
      ∷ ("EPSG:3832", record { origin = (pos 50_000, pos 0); resolution = (pos 5_000, pos 10_000) })
      ∷ [];
}

grids-made :
    ready_wcs thousandths true table.crses bboxes "EPSG:3857" (pos 10_000, negsuc 9_999)
    ≡ ok (gridded grids)
unfolding ready_wcs collect quot ◌*ℤ◌ ◌-ℤ◌
grids-made = refl

ready_wcs-grids_example :
    (g : Grids thousandths) × (gridded grids ≡ gridded g)
    × (ltb_ℤ (pos 0) g.grid_high_x ≡ true)
    × (ltb_ℤ (pos 0) g.grid_high_y ≡ true)
    × ((name : String)
        → GridFor thousandths table.crses bboxes "EPSG:3857"
            (bounds (pos 0))
            (pos 10_000, negsuc 9_999)
            g.grid_high_x
            g.grid_high_y
            name
            (lookup name g.grids))
ready_wcs-grids_example =
    ready_wcs-grids thousandths false raws table bboxes "EPSG:3857" (pos 10_000, negsuc 9_999)
      (bounds (pos 0)) (gridded grids) crses-parsed refl grids-made

-- Without a native bounding box a layer is hidden.
no_box :
    ready_wcs thousandths true table.crses [] "EPSG:3857" (pos 10_000, negsuc 9_999) ≡ ok hidden
unfolding ready_wcs
no_box = refl

-- A vertical resolution that is positive is refused.
upwards :
    ready_wcs thousandths true table.crses bboxes "EPSG:3857" (pos 10_000, pos 10_000) ≡ err high_y
unfolding ready_wcs quot ◌*ℤ◌ ◌-ℤ◌
upwards = refl

-- Beside a resolution of the metadata, three numbers are a ValueError.
three_numbers :
    native_resolution thousandths
      (("x", pos 10) ∷ ("y", pos 10) ∷ [])
      (some (pos 1 ∷ pos 2 ∷ pos 3 ∷ []))
      mercator
    ≡ err value_error
unfolding native_resolution
three_numbers = refl

of_metadata :
    native_crs (some "EPSG:3857") (some "EPSG:4326") table.crses ≡ ok ("EPSG:3857", mercator)
unfolding native_crs
of_metadata = refl
