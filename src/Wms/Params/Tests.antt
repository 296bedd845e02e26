-- ===== src/Wms/Params/Tests.antt =====
-- Runs of the parameters of WMS requests.
use datacube_ows.Base.{
  ℕ, ◌+◌, ◌-◌, ◌≡◌, ◌↔◌, ◌⊎◌, refl, true, false, Option, none, some, [], ◌∷◌, String, ok, err,
  string_eq, ◌==◌, if◌then◌else◌,
}
use datacube_ows.Base.Int.{ℤ, pos, negsuc, ◌*ℤ◌, ◌-ℤ◌}
use datacube_ows.Base.Text.{codes, upper}
use datacube_ows.Base.Decimal.{py_int}
use datacube_ows.Base.Float.{thousandths, quot}
use datacube_ows.Tiles.Sets.{get_geobox_xy}
use datacube_ows.Config.Crs.{CrsDef}
use datacube_ows.Wms.Times.{get_times, get_arg}
use datacube_ows.Wms.Params.{
  Args, LayerW, checked_arg, get_layer_from_arg, single_style_from_args, wms_exception,
  style_not_defined, invalid_point,
}
use datacube_ows.Wms.Geobox.{
  GeoBox, int_of_arg, geobox_xy, create_geobox, get_geobox, zoom_factor, polygon_of,
}
use datacube_ows.Wms.Params.Requests.{
  ConfigW, CallsW, GetParameters, GetMapParameters, GetFeatureInfoParameters, config_crs, int_of,
  get_parameters, map_init, get_map_parameters, feature_init, get_feature_info_parameters,
}
use datacube_ows.Wms.Params.Chosen.{Custom, Named, single_style_from_args_iff}
use datacube_ows.Wms.Params.Sound.{SoundMap, SoundFeature, map_request_sound, feature_request_sound}

abbrev float_text : String → Option ℤ
float_text t = elim (py_int (codes t)) [ none ↦ none | some n ↦ some (n *ℤ pos 1000) ]

abbrev year : String → Option ℕ
year s = if s == "2020" then some 2020 else none

abbrev calls : CallsW thousandths String String ℕ
calls = record {
  crs = record {
    parse_float = float_text;
    sqrt = λ x. some (pos 2_000);
    new_crs = upper;
    crs_name = λ c. c;
    epsg = λ c. if c == "EPSG:3857" then some 3857 else none;
    same_crs = λ a b. a == b;
    to_crs = λ a b p. p;
    polygon_to_crs = λ a b points. points;
  };
  style = record {
    parse_float = float_text;
    has_cmap = λ name. name == "jet";
    user_style = λ code ramp lo hi. if code == "red" then some "custom" else none;
  };
  calendar = record {
    utcnow = 2024;
    parse_period = λ s. none;
    parse_start = year;
    parse_end = year;
    parse_time = year;
    has_zone = λ _. false;
    after = λ t p. t + p;
    before = λ t p. t - p;
    day_of = λ t. t;
    microseconds_per_day = 1;
  };
  needed_bands = λ style. style ∷ [];
}

abbrev layer : LayerW thousandths String
layer = record {
  times = record {
    is_subday = false;
    times = 2018 ∷ 2020 ∷ 2023 ∷ [];
    regular_time_axis = none;
    has_match = λ _. false;
  };
  user_band_math = true;
  style_index = ("rgb", "true colour") ∷ ("ndvi", "greenness") ∷ [];
  default_style = "rgb";
  native_crs = "EPSG:3577";
  resolution_x = pos 25_000;
  resolution_y = negsuc 24_999;
}

abbrev projected : Option String → CrsDef
projected alias_of = record {
  geographic = false;
  horizontal_coord = "x";
  vertical_coord = "y";
  vertical_coord_first = false;
  gml_name = "";
  alias_of = alias_of;
}

abbrev config : ConfigW thousandths String String ℕ
config = record {
  published =
      ("EPSG:3857", projected none)
      ∷ ("EPSG:3832", projected none)
      ∷ ("EPSG:900913", projected (some "EPSG:3857"))
      ∷ [];
  layer_index = ("ls8", layer) ∷ [];
  wms_max_width = pos 512;
  wms_max_height = pos 512;
}

abbrev box_args : Args
box_args =
    ("version", "1.3.0")
    ∷ ("crs", "EPSG:900913")
    ∷ ("bbox", "14000000,0,14000100,200")
    ∷ ("width", "10")
    ∷ ("height", "20")
    ∷ []

abbrev map_args : Args
map_args = ("layers", "ls8__full") ∷ ("format", "IMAGE/PNG") ∷ ("time", "2020,") ∷ box_args

abbrev geobox : GeoBox thousandths String
geobox = record {
  crs = "EPSG:3832";
  width = pos 10;
  height = pos 20;
  affine = record {
    x_scale = pos 10_000;
    x_offset = pos 14_000_000_000;
    y_scale = negsuc 9_999;
    y_offset = pos 200_000;
  };
}

abbrev base : GetParameters thousandths String String ℕ
base = record {
  version = "1.3.0";
  crsid = "EPSG:900913";
  crs = "EPSG:3832";
  layer = layer;
  geometry =
      (pos 14_000_000_000, pos 200_000)
      ∷ (pos 14_000_000_000, pos 0)
      ∷ (pos 14_000_100_000, pos 0)
      ∷ (pos 14_000_100_000, pos 200_000)
      ∷ (pos 14_000_000_000, pos 200_000)
      ∷ [];
  geobox = geobox;
  times = 2020 ∷ 2023 ∷ [];
}

abbrev parsed : GetMapParameters thousandths String String ℕ
parsed = record {
  base = base;
  format = "image/png";
  style = "true colour";
  zf = pos 500;
  ows_stats = false;
  resources = record {
    native_crs = "EPSG:3577";
    native_resolution = (pos 25_000, negsuc 24_999);
    geobox = geobox;
    n_dates = 2;
    request_bands = "true colour" ∷ [];
  };
}

map-parsed : get_map_parameters thousandths String String ℕ calls config map_args ≡ ok parsed
unfolding get_map_parameters get_parameters map_init checked_arg get_arg config_crs
    get_layer_from_arg single_style_from_args geobox_xy get_geobox int_of_arg create_geobox
    polygon_of zoom_factor get_geobox_xy get_times py_int ◌*ℤ◌ ◌-ℤ◌ quot
map-parsed = refl

map_request_sound_example : SoundMap thousandths calls config map_args parsed
map_request_sound_example = map_request_sound thousandths calls config map_args parsed map-parsed

abbrev feature_args : Args
feature_args =
    ("query_layers", "ls8")
    ∷ ("info_format", "text/html")
    ∷ ("i", "3")
    ∷ ("j", "4")
    ∷ ("time", "2020,")
    ∷ box_args

abbrev feature : GetFeatureInfoParameters thousandths String String ℕ
feature = record { base = base; format = "text/html"; i = pos 3; j = pos 4; style = none }

feature-parsed :
    get_feature_info_parameters thousandths String String ℕ calls config feature_args ≡ ok feature
unfolding get_feature_info_parameters get_parameters feature_init checked_arg get_arg config_crs
    get_layer_from_arg single_style_from_args geobox_xy get_geobox int_of_arg int_of create_geobox
    polygon_of get_geobox_xy get_times py_int ◌*ℤ◌ ◌-ℤ◌ quot
feature-parsed = refl

feature_request_sound_example : SoundFeature thousandths calls config feature_args feature
feature_request_sound_example =
    feature_request_sound thousandths calls config feature_args feature feature-parsed

-- A second coordinate that is missing is reported at the first.
no_second_coordinate :
    feature_init thousandths String String ℕ calls
      (("info_format", "text/html") ∷ ("i", "3") ∷ [])
      base
    ≡ err (wms_exception invalid_point "i parameter")
unfolding feature_init checked_arg get_arg
no_second_coordinate = refl

unknown_style :
    single_style_from_args thousandths String calls.style layer (("styles", "none") ∷ []) true
    ≡ err (wms_exception style_not_defined "Style parameter")
unfolding single_style_from_args
unknown_style = refl

abbrev custom_args : Args
custom_args = ("code", "red") ∷ ("colorscheme", "jet") ∷ ("styles", "ndvi") ∷ []

single_style_from_args_iff_example :
    (single_style_from_args thousandths String calls.style layer custom_args true
      ≡ ok (some "custom"))
    ↔ (Custom thousandths calls.style layer custom_args (some "custom")
        ⊎ Named thousandths calls.style layer custom_args true (some "custom"))
single_style_from_args_iff_example =
    single_style_from_args_iff thousandths calls.style layer custom_args true (some "custom")
