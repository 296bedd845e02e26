-- ===== src/Wcs/Tests.antt =====
-- Runs of WCS 2 requests.
use datacube_ows.Base.{
  if◌then◌else◌, ℕ, ◌≡◌, refl, true, false, ◌&&◌, none, some, err, List, [], ◌∷◌, String, ok, ◌>>=◌,
  contains, string_eq, nat_eq, ◌==◌, leb,
}
use datacube_ows.Base.Int.{ℤ, pos, negsuc, ◌+ℤ◌, ◌-ℤ◌, ◌*ℤ◌}
use datacube_ows.Base.Float.{thousandths, quot}
use datacube_ows.Wcs.Scaler.{
  AxisNames, Bounds, LayerGrid, Scaler, Shape, x_axis, y_axis, real, set_axis_size, axis_of,
  new_scaler, trim,
}
use datacube_ows.Wcs.Transform.{to_crs, affine, scale_axis}
use datacube_ows.Wcs.Transform.Extents.{HasExtent, trim-to_crs}
use datacube_ows.Wcs.Fields.{
  no_such_coverage, Format, TimeModel, trim_times, time_bound, interval, field, request_bands,
  uniform_crs,
}
use datacube_ows.Wcs.Fields.Choices.{Known, trim_times-within}
use datacube_ows.Wcs.Coverage.{
  CoverageLayer, CoverageRequest, CoveragePlan, trim_text, by_factor, coverage_plan,
  get_coverage_plan,
}
use datacube_ows.Wcs.Coverage.Plans.{coverage_plan_sound}

abbrev names : AxisNames
names = record { horizontal_coord = "x"; vertical_coord = "y" }

abbrev bounds : Bounds thousandths
bounds = record { left = pos 0; right = pos 100_000; bottom = pos 0; top = pos 200_000 }

abbrev grid : LayerGrid thousandths
grid = record {
  native = names;
  axis_names = λ _. names;
  resolution = λ _. record { x = pos 10_000; y = negsuc 9_999 };
  bboxes = λ _. bounds;
}

abbrev to_point : String → String → ℤ → ℤ → ℤ × ℤ
to_point old new x y = (x, y)

abbrev to_box : String → String → Shape thousandths → Bounds thousandths
to_box old new shape = bounds

abbrev start : Scaler thousandths
start = record {
  crs_def = names;
  crs = "EPSG:3577";
  lows = record { x = none; y = none };
  highs = record { x = none; y = none };
  size = record { x = none; y = none };
  subsetted = record { x = false; y = false };
}

sized :
    set_axis_size thousandths x_axis (real (pos 2_600)) start
    ≡ ok (record start { size = record { x = some (pos 3); y = none } })
unfolding set_axis_size quot ◌+ℤ◌ ◌*ℤ◌
sized = refl

plain_x : axis_of names names "x" ≡ ok x_axis
unfolding axis_of
plain_x = refl

plain_y : axis_of names names "y" ≡ ok y_axis
unfolding axis_of
plain_y = refl

long_x : axis_of names names "long" ≡ ok x_axis
unfolding axis_of
long_x = refl

lat_y : axis_of names names "lat" ≡ ok y_axis
unfolding axis_of
lat_y = refl

wide_x :
    thousandths.lt
      (thousandths.abs (thousandths.sub (pos 100_000) (pos 0)))
      (thousandths.abs (thousandths.mul (pos 10_000) (thousandths.decimal (pos 15) 1)))
    ≡ false
unfolding quot ◌-ℤ◌ ◌*ℤ◌
wide_x = refl

wide_y :
    thousandths.lt
      (thousandths.abs (thousandths.sub (pos 200_000) (pos 0)))
      (thousandths.abs (thousandths.mul (negsuc 9_999) (thousandths.decimal (pos 15) 1)))
    ≡ false
unfolding quot ◌-ℤ◌ ◌*ℤ◌
wide_y = refl

trim-to_crs_example :
    (next : Scaler thousandths) × ((trim thousandths grid "long"
          (some (pos 0))
          (some (pos 100_000))
          (new_scaler thousandths grid "EPSG:3577")
        >>= λ s.
            (trim thousandths grid "lat" (some (pos 0)) (some (pos 200_000)) s >>= λ t.
            to_crs thousandths grid to_point to_box "EPSG:3577" t))
      ≡ ok next)
    × HasExtent thousandths next (pos 0) (pos 100_000) (pos 0) (pos 200_000)
    × (next.crs ≡ "EPSG:3577")
trim-to_crs_example =
    trim-to_crs thousandths to_point to_box grid "EPSG:3577" "long" "lat" (pos 0) (pos 100_000)
      (pos 0) (pos 200_000) (plain_x, plain_y) long_x lat_y (wide_x, wide_y)

-- Two years are read.
abbrev dates : TimeModel
dates = record {
  is_subday = false;
  parse_date = λ s. if s == "2020" then some 2020 else some 2021;
  parse_datetime = λ s. none;
}

low_2020 : time_bound dates (some "2020") ≡ ok (some 2020)
unfolding time_bound
low_2020 = refl

high_2021 : time_bound dates (some "2021") ≡ ok (some 2021)
unfolding time_bound
high_2021 = refl

trim_times-within_example :
    (kept : List ℕ) × (trim_times dates (some "2020") (some "2021") (2019 ∷ 2020 ∷ 2022 ∷ [])
      ≡ ok kept)
    × ((t : ℕ)
        → contains t kept ≡ (leb 2020 t && leb t 2021 && contains t (2019 ∷ 2020 ∷ 2022 ∷ [])))
trim_times-within_example =
    trim_times-within dates "2020" "2021" 2020 2021 (2019 ∷ 2020 ∷ 2022 ∷ []) refl low_2020
      high_2021

abbrev labels : List String
labels = "red" ∷ "green" ∷ "blue" ∷ "nir" ∷ []

abbrev tiff : Format
tiff = record { mime = "image/tiff"; multi_time = false }

abbrev layer : CoverageLayer thousandths
layer = record {
  wcs = true;
  native_crs = "EPSG:3577";
  native_format = some tiff;
  times = 2019 ∷ 2020 ∷ 2022 ∷ [];
  time_model = dates;
  band_labels = labels;
  grid = grid;
}

abbrev request : CoverageRequest thousandths
request = record {
  coverage_id = "ls8";
  subsetting_crs = none;
  output_crs = some "urn:ogc:def:crs:EPSG::3577";
  subsets = record { dimension = "Time"; extent = trim_text (some "2020") (some "2021") } ∷ [];
  scales = record { axis = "x"; scaling = by_factor (pos 500) } ∷ [];
  range_subset = field "nir" ∷ interval "red" "green" ∷ [];
  format = none;
}

abbrev plan : CoveragePlan thousandths
plan = record {
  crs = "EPSG:3577";
  times = 2020 ∷ [];
  bands = "nir" ∷ "red" ∷ "green" ∷ [];
  format = tiff;
  scaler = record {
    crs_def = names;
    crs = "EPSG:3577";
    lows = record { x = some (pos 0); y = some (pos 0) };
    highs = record { x = some (pos 100_000); y = some (pos 200_000) };
    size = record { x = some (pos 5); y = some (pos 20) };
    subsetted = record { x = false; y = false };
  };
  transform = record {
    x_offset = pos 0;
    y_offset = pos 200_000;
    x_scale = pos 20_000;
    y_scale = negsuc 9_999;
  };
}

planned :
    coverage_plan thousandths to_point to_box (λ s. s == "EPSG:3577") [] layer request ≡ ok plan
unfolding coverage_plan uniform_crs trim_times to_crs axis_of ◌-ℤ◌ quot ◌*ℤ◌ scale_axis
    set_axis_size request_bands affine ◌+ℤ◌
planned = refl

not_for_wcs :
    get_coverage_plan thousandths to_point to_box
      (λ s. s == "EPSG:3577")
      []
      (("ls8", record layer { wcs = false }) ∷ [])
      request
    ≡ err (no_such_coverage "ls8")
unfolding get_coverage_plan
not_for_wcs = refl

coverage_plan_sound_example :
    ((plan.crs == "EPSG:3577") ≡ true) × Known labels plan.bands × (false ≡ false)
coverage_plan_sound_example =
    coverage_plan_sound thousandths to_point to_box (λ s. s == "EPSG:3577") [] layer request plan
      planned
