-- ===== src/Config/Crs/Tests.antt =====
-- Runs of the reading of coordinate systems.
use datacube_ows.Base.{
  ℕ, ◌≡◌, refl, true, false, none, some, [], ◌∷◌, String, Dict, ok, err, lookup, has_key, string_eq,
}
use datacube_ows.Config.Crs.{
  RawCrs, alias, defined, CrsDef, CrsTable, bad_horizontal, make_gml_name, parse_crses,
  alias_bboxes,
}
use datacube_ows.Config.Crs.Published.{PublishedOk, parse_crses-PublishedOk}
use datacube_ows.Config.Crs.Boxes.{BoxFor, alias_bboxes-BoxFor}

abbrev projected : RawCrs
projected = defined (record {
  geographic = some false;
  horizontal_coord = some "x";
  vertical_coord = some "y";
  vertical_coord_first = none;
})

abbrev geographic : RawCrs
geographic = defined (record {
  geographic = some true;
  horizontal_coord = none;
  vertical_coord = none;
  vertical_coord_first = some true;
})

abbrev raws : Dict String RawCrs
raws =
    ("I-CANT-BELIEVE-ITS-NOT-EPSG:3857", alias "EPSG:900913")
    ∷ ("EPSG:3857", projected)
    ∷ ("EPSG:900913", alias "EPSG:3857")
    ∷ ("SECOND", alias "EPSG:900913")
    ∷ ("EPSG:4326", geographic)
    ∷ []

abbrev flat : String → String → CrsDef
flat name gml = record {
  geographic = false;
  horizontal_coord = "x";
  vertical_coord = "y";
  vertical_coord_first = false;
  gml_name = gml;
  alias_of = none;
}

abbrev degrees : CrsDef
degrees = record {
  geographic = true;
  horizontal_coord = "longitude";
  vertical_coord = "latitude";
  vertical_coord_first = true;
  gml_name = "http://www.opengis.net/def/crs/EPSG/0/4326";
  alias_of = none;
}

abbrev mercator : CrsDef
mercator = flat "EPSG:3857" "http://www.opengis.net/def/crs/EPSG/0/3857"

abbrev google : CrsDef
google = record mercator {
  gml_name = "http://www.opengis.net/def/crs/EPSG/0/900913";
  alias_of = some "EPSG:3857";
}

-- An alias of one that is not published yet is skipped, and one of an alias names the alias.
abbrev table : CrsTable
table = record {
  crses =
      ("EPSG:3857", mercator)
      ∷ ("EPSG:4326", degrees)
      ∷ ("EPSG:3832", flat "EPSG:3832" "http://www.opengis.net/def/crs/EPSG/0/3832")
      ∷ ("EPSG:900913", google)
      ∷ ("SECOND", record mercator { gml_name = "SECOND"; alias_of = some "EPSG:900913" })
      ∷ [];
  internal = ("EPSG:3857", mercator) ∷ ("EPSG:4326", degrees) ∷ [];
  default_geographic = "urn:ogc:def:crs:OGC:1.3:CRS84";
}

crses-parsed : parse_crses true raws ≡ ok table
unfolding parse_crses make_gml_name
crses-parsed = refl

parse_crses-PublishedOk_example :
    PublishedOk table.crses
    × ((name : String) → has_key name table.internal ≡ true → has_key name table.crses ≡ true)
    × (has_key "EPSG:3857" table.internal ≡ true → has_key "EPSG:3832" table.crses ≡ true)
parse_crses-PublishedOk_example = parse_crses-PublishedOk true raws table crses-parsed

abbrev boxes : Dict String ℕ
boxes = ("EPSG:3857", 1) ∷ ("EPSG:4326", 2) ∷ []

alias_bboxes-BoxFor_example :
    BoxFor boxes table.crses "EPSG:900913" (lookup "EPSG:900913" (alias_bboxes table.crses boxes))
alias_bboxes-BoxFor_example = alias_bboxes-BoxFor boxes true raws table "EPSG:900913" crses-parsed

-- The alias of an alias has no box, though its target has one.
alias_of_alias : lookup "SECOND" (alias_bboxes table.crses boxes) ≡ none
unfolding alias_bboxes
alias_of_alias = refl

one_bad :
    parse_crses false (
      (
        "EPSG:4283",
        defined (record {
          geographic = some true;
          horizontal_coord = some "x";
          vertical_coord = none;
          vertical_coord_first = none;
        }),
      )
      ∷ [])
    ≡ err (bad_horizontal "EPSG:4283")
unfolding parse_crses make_gml_name
one_bad = refl
