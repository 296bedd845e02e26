-- ===== src/Tiles/Requests.antt =====
-- WMTS requests (datacube_ows/wmts.py): the sections of a capabilities document, and a request for a
-- tile as the WMS request that answers it.
pub mod Laws
use Prim.Native.String.{◌++◌ as ◌^^◌}
use datacube_ows.Base.{
  ℕ, ◌≡◌, Bool, true, false, ◌||◌, not, Option, none, some, List, [], ◌∷◌, String, ◌==◌, string_eq,
  nat_eq, if◌then◌else◌, Result, ok, err, ◌>>=◌, ◌>>◌, raise_if, or_raise, Dict, lookup, has_key,
  length, leb,
}
use datacube_ows.Base.Int.{ℤ, pos, pos_part, ltb_ℤ, leb_ℤ}
use datacube_ows.Base.Text.{codes, split, lower}
use datacube_ows.Base.Decimal.{py_int}
use datacube_ows.Base.Float.{Floats}
use datacube_ows.Tiles.Sets.{TileMatrixSet, Box, wms_bbox_coords}

-- What a capabilities document shows.
pub record Sections : Type 0 where
  pub service_id : Bool
  pub service_provider : Bool
  pub ops_metadata : Bool
  pub contents : Bool
  pub themes : Bool

abbrev pub nothing : Sections
nothing = record {
  service_id = false;
  service_provider = false;
  ops_metadata = false;
  contents = false;
  themes = false;
}

abbrev pub everything : Sections
everything = record {
  service_id = true;
  service_provider = true;
  ops_metadata = true;
  contents = true;
  themes = true;
}

pub data WmtsError : Type 0 where
  invalid_section : String → WmtsError
  invalid_tile_matrix_set invalid_tile_matrix invalid_row invalid_col : WmtsError
  -- Python's TypeError, IndexError and KeyError, which are not caught.
  type_error index_error key_error : WmtsError

-- The body of the loop over the sections.
pub add_section : String → Sections → Option Sections
add_section s shown =
    if s == "all"
    then some everything
    else if s == "serviceidentification"
    then some (record shown { service_id = true })
    else if s == "serviceprovider"
    then some (record shown { service_provider = true })
    else if s == "operationsmetadata"
    then some (record shown { ops_metadata = true })
    else if s == "contents"
    then some (record shown { contents = true })
    else if s == "themes"
    then some (record shown { themes = true })
    else none

pub add_sections : String → List String → Sections → Result WmtsError Sections
add_sections section [] shown = ok shown
add_sections section (s ∷ ss) shown =
    or_raise (add_section s shown) (invalid_section section) >>= λ shown'.
    add_sections section ss shown'

-- The sections of `get_capabilities`. An empty argument is not None: it names no valid section.
pub shown_sections : Option String → Result WmtsError Sections
unfolding add_sections add_section
shown_sections none = ok everything
shown_sections (some section) =
    let named = lower section in add_sections named (split b',' named) nothing

abbrev pub Args : Type 0
Args = Dict String String

-- `int(text)`, where None is a TypeError.
pub int_arg : WmtsError → Option String → Result WmtsError ℤ
int_arg e none = err type_error
int_arg e (some text) = or_raise (py_int (codes text)) e

module _ (fl : Floats) where
  -- The arguments of the WMS request.
  pub record WmsArgs : Type 0 where
    pub styles : Option String
    pub layers : Option String
    pub time : String
    pub width : ℕ
    pub height : ℕ
    pub format : Option String
    pub requestid : String
    pub crs : String
    pub bbox : String
    -- `i`, `j` and `info_format`
    pub pixel : Option (String × String × String)
    pub ows_stats : Bool

  abbrev pub Sets : Type 0
  Sets = Dict String (TileMatrixSet fl)

  -- `tileMatrixSet == _tms.wkss`
  abbrev pub same_name : Option String → Option String → Bool
  same_name none none = true
  same_name (some a) (some b) = a == b
  same_name none (some b) = false
  same_name (some a) none = false

  pub find_wkss : Option String → Sets → Option (TileMatrixSet fl)
  find_wkss name [] = none
  find_wkss name ((_, tms) ∷ sets) =
      let rest = find_wkss name sets in if same_name name tms.wkss then some tms else rest

  pub find_set : Sets → Option String → Option (TileMatrixSet fl)
  unfolding find_wkss
  find_set sets none = find_wkss none sets
  find_set sets (some name) = elim (lookup name sets) [
    | some tms ↦ some tms
    | none ↦ find_wkss (some name) sets
  ]

  -- The message of the exception adds the name, which may be None.
  abbrev not_found : Option String → WmtsError
  not_found none = type_error
  not_found (some name) = invalid_tile_matrix_set

  abbrev arg_or_empty : Option String → String
  arg_or_empty none = ""
  arg_or_empty (some v) = v

  abbrev pub pixel_args : Args → Option (String × String × String)
  pixel_args args = elim (lookup "i" args) [
    | none ↦ none
    | some i ↦ some (i, arg_or_empty (lookup "j" args), arg_or_empty (lookup "infoformat" args))
  ]

  -- `"%f,%f,%f,%f" % box`, where `print` is the printing of a float with six decimals.
  abbrev pub print_box : (fl.F → String) → Box fl → String
  print_box print (a, b, c, d) =
      print a ^^ ("," ^^ (print b ^^ ("," ^^ (print c ^^ ("," ^^ print d)))))

  -- `wmts_args_to_wms`; `vertical` is `vertical_coord_first` of a published CRS.
  unfoldable pub wmts_args_to_wms :
      (fl.F → String) → Sets → (String → Bool) → Args → Result WmtsError WmsArgs
  unfolding find_set int_arg
  wmts_args_to_wms print sets vertical args = do
    requestid ← or_raise (lookup "requestid" args) key_error
    let name = lookup "tilematrixset" args
    tms ← or_raise (find_set sets name) (not_found name)
    tile_matrix ← int_arg invalid_tile_matrix (lookup "tilematrix" args)
    raise_if (ltb_ℤ tile_matrix (pos 0) || leb_ℤ (pos (length tms.scale_set)) tile_matrix)
        invalid_tile_matrix
    row ← int_arg invalid_row (lookup "tilerow" args)
    col ← int_arg invalid_col (lookup "tilecol" args)
    bbox ←
        or_raise (wms_bbox_coords fl (vertical tms.crs_name) tms (pos_part tile_matrix) row col)
          index_error
    ok (record {
      styles = lookup "style" args;
      layers = lookup "layer" args;
      time = arg_or_empty (lookup "time" args);
      width = 256;
      height = 256;
      format = lookup "format" args;
      requestid = requestid;
      crs = tms.crs_name;
      bbox = print_box print bbox;
      pixel = pixel_args args;
      ows_stats = not (arg_or_empty (lookup "ows_stats" args) == "");
    })
