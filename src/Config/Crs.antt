-- ===== src/Config/Crs.antt =====
-- The published coordinate systems of a configuration: the second half of `parse_global`, `alias_bboxes`
-- and `crs` of class OWSConfig (datacube_ows/ows_configuration.py). Warnings in the log are left out. The
-- names of a dictionary of the configuration are distinct, as those of every Python dictionary.
pub mod Published
pub mod Boxes
mod Tests
use Prim.Native.String.{◌++◌ as ◌^^◌}
use datacube_ows.Base.Text.{starts_with}
use datacube_ows.Base.{
  ℕ, zero, suc, Bool, true, false, not, ◌&&◌, ◌||◌, Option, none, some, List, [], ◌∷◌, ◌++◌, String,
  Result, ok, err, ◌>>=◌, ◌>>◌, raise_if, or_raise, Dict, lookup, has_key, insert, contains, ◌==◌,
  string_eq, if◌then◌else◌,
}

pub data CrsError : Type 0 where
  -- A ConfigException about a coordinate system, or about there being no geographic one.
  bad_horizontal bad_vertical : String → CrsError
  no_geographic : CrsError
  key_error : String → CrsError

-- A coordinate system of the configuration: an alias of another, or a definition.
pub record RawDef : Type 0 where
  pub geographic : Option Bool
  pub horizontal_coord : Option String
  pub vertical_coord : Option String
  pub vertical_coord_first : Option Bool

pub data RawCrs : Type 0 where
  alias : String → RawCrs
  defined : RawDef → RawCrs

pub record CrsDef : Type 0 where
  pub geographic : Bool
  pub horizontal_coord : String
  pub vertical_coord : String
  pub vertical_coord_first : Bool
  pub gml_name : String
  pub alias_of : Option String

abbrev drop_text : ℕ → String → String
drop_text zero s = s
drop_text (suc n) String.[] = String.[]
drop_text (suc n) (String.◌∷◌ c s) = drop_text n s

-- `make_gml_name`
unfoldable pub make_gml_name : String → String
make_gml_name name =
    if starts_with "EPSG:" name
    then "http://www.opengis.net/def/crs/EPSG/0/" ^^ drop_text 5 name
    else name

abbrev or_default : {A : Type 0} → A → Option A → A
or_default default none = default
or_default default (some a) = a

-- What the loop over the configuration has read; the aliases are kept for later.
pub record Reading : Type 0 where
  pub published : Dict String CrsDef
  pub internal : Dict String CrsDef
  pub aliases : List (String × String)
  pub geographic : List String

pub def_of : String → RawDef → Bool → CrsDef
unfolding make_gml_name
def_of name raw geographic = record {
  geographic = geographic;
  horizontal_coord = or_default "longitude" raw.horizontal_coord;
  vertical_coord = or_default "latitude" raw.vertical_coord;
  vertical_coord_first = or_default false raw.vertical_coord_first;
  gml_name = make_gml_name name;
  alias_of = none;
}

-- The checks of the axes of a geographic one.
pub check_axes : String → CrsDef → Result CrsError (Unit {0})
check_axes name def = do
  raise_if (def.geographic && not (def.horizontal_coord == "longitude")) (bad_horizontal name)
  raise_if (def.geographic && not (def.vertical_coord == "latitude")) (bad_vertical name)

-- One turn of the loop.
pub read_crs : Reading → String → RawCrs → Result CrsError Reading
unfolding def_of check_axes
read_crs r name (alias target) = ok (record r { aliases = r.aliases ++ (name, target) ∷ [] })
read_crs r name (defined raw) = do
  geographic ← or_raise raw.geographic (key_error "geographic")
  let def = def_of name raw geographic
  check_axes name def
  ok (record {
    published = insert name def r.published;
    internal = insert name def r.internal;
    aliases = r.aliases;
    geographic = if geographic then r.geographic ++ name ∷ [] else r.geographic;
  })

pub read_all : Reading → Dict String RawCrs → Result CrsError Reading
unfolding read_crs
read_all r [] = ok r
read_all r ((name, raw) ∷ raws) = read_crs r name raw >>= λ next. read_all next raws

pub default_geographic_crs : Bool → List String → Result CrsError String
default_geographic_crs false names = ok ""
default_geographic_crs true [] = err no_geographic
default_geographic_crs true (n ∷ ns) =
    if contains "EPSG:4326" (n ∷ ns) || contains "WGS-84" (n ∷ ns)
    then ok "urn:ogc:def:crs:OGC:1.3:CRS84"
    else ok n

abbrev pacific : CrsDef
unfolding make_gml_name
pacific = record {
  geographic = false;
  horizontal_coord = "x";
  vertical_coord = "y";
  vertical_coord_first = false;
  gml_name = make_gml_name "EPSG:3832";
  alias_of = none;
}

-- EPSG:3832 goes with EPSG:3857.
pub add_pacific : Dict String CrsDef → Dict String CrsDef
add_pacific published =
    if has_key "EPSG:3857" published && not (has_key "EPSG:3832" published)
    then insert "EPSG:3832" pacific published
    else published

pub alias_def : String → String → CrsDef → CrsDef
unfolding make_gml_name
alias_def name target def = record def { gml_name = make_gml_name name; alias_of = some target }

-- The loop over the aliases; one of a target that is not published is skipped.
pub add_aliases : Dict String CrsDef → List (String × String) → Dict String CrsDef
unfolding alias_def
add_aliases published [] = published
add_aliases published ((name, target) ∷ aliases) = elim (lookup target published) [
  | none ↦ add_aliases published aliases
  | some def ↦ add_aliases (insert name (alias_def name target def) published) aliases
]

pub record CrsTable : Type 0 where
  pub crses : Dict String CrsDef
  pub internal : Dict String CrsDef
  pub default_geographic : String

abbrev pub nothing_read : Reading
nothing_read = record { published = []; internal = []; aliases = []; geographic = [] }

-- The coordinate systems of `parse_global`, with or without WCS.
unfoldable pub parse_crses : Bool → Dict String RawCrs → Result CrsError CrsTable
unfolding read_all default_geographic_crs add_pacific add_aliases
parse_crses wcs raws = do
  r ← read_all nothing_read raws
  default ← default_geographic_crs wcs r.geographic
  ok (record {
    crses = add_aliases (add_pacific r.published) r.aliases;
    internal = r.internal;
    default_geographic = default;
  })

-- The name that stands for a coordinate system: that of the one that it is an alias of.
abbrev pub real_crs : String → Option String → String
real_crs name none = name
real_crs name (some target) = if target == "" then name else target

module _ {B : Type 0} where
  -- A loop over the coordinate systems that sets an entry for some of them.
  unfoldable pub collect :
      (String → CrsDef → Option B) → Dict String B → Dict String CrsDef → Dict String B
  collect entry out [] = out
  collect entry out ((name, def) ∷ defs) = elim (entry name def) [
    | none ↦ collect entry out defs
    | some b ↦ collect entry (insert name b out) defs
  ]

  -- `alias_bboxes`
  unfoldable pub alias_bboxes : Dict String CrsDef → Dict String B → Dict String B
  unfolding collect
  alias_bboxes published bboxes =
      collect (λ name def. lookup (real_crs name def.alias_of) bboxes) [] published
