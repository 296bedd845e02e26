-- ===== src/Wcs/Request1/Tests.antt =====
-- Runs of a WCS 1 request.
use datacube_ows.Base.{
  ℕ, ◌≡◌, ◌≢◌, refl, true, false, Option, none, some, [], ◌∷◌, String, ok, err, contains, string_eq,
  ◌==◌, if◌then◌else◌,
}
use datacube_ows.Base.Int.{ℤ, pos, negsuc, ◌*ℤ◌, ◌-ℤ◌}
use datacube_ows.Base.Text.{codes}
use datacube_ows.Base.Decimal.{py_int}
use datacube_ows.Base.Float.{thousandths, quot}
use datacube_ows.Config.Bands.{locale_band, band}
use datacube_ows.Wcs.Request1.{
  Layer1, Format1, Config1, Args, request_layer, request_format1, request_crs1, response_crs1,
  request_times, request_bands1, wcs1_exception, missing_parameter_value,
}
use datacube_ows.Wcs.Grid1.{
  Box1, Size1, positive_int, request_box, response_box, request_size, request_affine,
}
use datacube_ows.Wcs.Request1.Parsed.{CoverageRequest1, Calls1, coverage_request1}
use datacube_ows.Wcs.Request1.Choices.{ServedBy, TimesFor, coverage_request1_sound}

abbrev float_text : String → Option ℤ
float_text t = elim (py_int (codes t)) [ none ↦ none | some n ↦ some (n *ℤ pos 1000) ]

abbrev date_text : String → Option ℕ
date_text t = if t == "2020-01-02" then some 2 else if t == "2020-01-01" then some 1 else none

abbrev calls : Calls1 thousandths
calls = record {
  parse_float = float_text;
  parse_date = date_text;
  same_crs = λ a b. a == b;
  to_crs = λ a b box. box;
}

abbrev layer : Layer1
layer = record {
  wcs = true;
  default_time = 2;
  time_set = 1 ∷ 2 ∷ [];
  band_label = λ b. some b;
  band_cfg = ("red", "r" ∷ []) ∷ ("nir", []) ∷ [];
  band_index = ("red", "red") ∷ ("r", "red") ∷ ("nir", "nir") ∷ [];
  style_index = [];
}

abbrev netcdf : Format1
netcdf = record { name = "netCDF"; multi_time = true }

abbrev config : Config1
config = record {
  layer_index = ("ls8", layer) ∷ [];
  wcs_formats_by_name = ("netCDF", netcdf) ∷ [];
  published = "EPSG:3577" ∷ [];
}

abbrev args : Args
args =
    ("coverage", "ls8")
    ∷ ("format", "netCDF")
    ∷ ("crs", "EPSG:3577")
    ∷ ("bbox", "0,0,10,20")
    ∷ ("time", "2020-01-02,now,2020-01-01")
    ∷ ("measurements", "nir,r")
    ∷ ("width", "5")
    ∷ ("height", "4")
    ∷ []

abbrev box : Box1 thousandths
box = record { min_x = pos 0; min_y = pos 0; max_x = pos 10_000; max_y = pos 20_000 }

abbrev size : Size1 thousandths
size = record { width = pos 5; height = pos 4; resx = pos 2_000; resy = pos 5_000 }

abbrev parsed : CoverageRequest1 thousandths
parsed = record {
  layer = layer;
  format = netcdf;
  request_crs = "EPSG:3577";
  response_crs = "EPSG:3577";
  box = box;
  times = 1 ∷ 2 ∷ [];
  bands = some "nir" ∷ some "red" ∷ [];
  size = size;
  affine = record {
    x_scale = pos 2_000;
    x_offset = pos 0;
    y_scale = negsuc 4_999;
    y_offset = pos 20_000;
  };
  ows_stats = false;
}

request-parsed : coverage_request1 thousandths calls config args ≡ ok parsed
unfolding coverage_request1 request_layer request_format1 request_crs1 response_crs1 request_times
    request_bands1 request_box response_box request_size request_affine positive_int py_int
    locale_band band ◌*ℤ◌ ◌-ℤ◌ quot
request-parsed = refl

-- Without a coverage a request is refused at once.
no_coverage :
    coverage_request1 thousandths calls config (("format", "netCDF") ∷ [])
    ≡ err (wcs1_exception missing_parameter_value "COVERAGE parameter")
unfolding coverage_request1 request_layer
no_coverage = refl

coverage_request1_sound_example :
    ServedBy config args layer
    × (contains "EPSG:3577" config.published ≡ true)
    × (contains "EPSG:3577" config.published ≡ true)
    × TimesFor layer netcdf (1 ∷ 2 ∷ [])
    × (pos 5 ≢ pos 0)
    × (pos 4 ≢ pos 0)
coverage_request1_sound_example =
    coverage_request1_sound thousandths calls config args parsed request-parsed
