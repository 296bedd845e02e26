-- ===== src/Wcs/Request1.antt =====
-- `class WCS1GetCoverageRequest` of datacube_ows/wcs1_utils.py and `get_bands_from_styles` of
-- datacube_ows/wcs_utils.py: the reading of a WCS 1 request. A date is a number, larger for later. Numbers
-- that are no finite float are not modelled.

pub mod Parsed
mod Tests
pub mod Choices
use datacube_ows.Base.{
  ℕ, Bool, true, false, not, ◌&&◌, ◌||◌, Option, none, some, List, [], ◌∷◌, ◌++◌, String, Result,
  ok, err, ◌>>=◌, ◌>>◌, raise_if, or_raise, Dict, lookup, has_key, contains, traverse, map, length,
  leb, ltb, ◌==◌, string_eq, nat_eq, if◌then◌else◌,
}
use datacube_ows.Base.Int.{ℤ, pos, ltb_ℤ, int_eq}
use datacube_ows.Base.Text.{codes, split}
use datacube_ows.Base.Decimal.{py_int}
use datacube_ows.Base.Float.{Floats}
use datacube_ows.Config.Bands.{BandError, locale_band, band_names}

pub data ErrorCode : Type 0 where
  missing_parameter_value invalid_parameter_value coverage_not_defined no_code : ErrorCode

-- A WCS1Exception, by its code and its locator, or an exception that the code does not catch.
pub data Wcs1Error : Type 0 where
  wcs1_exception : ErrorCode → String → Wcs1Error
  zero_division type_error : Wcs1Error

pub record StyleBands : Type 0 where
  pub needed_bands : List String
  pub flag_bands : List String

-- What the code reads of a layer. `parse_date` is `parse(t).date()` of dateutil.
pub record Layer1 : Type 0 where
  pub wcs : Bool
  pub default_time : ℕ
  pub time_set : List ℕ
  pub band_label : String → Option String
  pub band_cfg : Dict String (List String)
  pub band_index : Dict String String
  pub style_index : Dict String StyleBands

pub record Format1 : Type 0 where
  pub name : String
  pub multi_time : Bool

pub record Config1 : Type 0 where
  pub layer_index : Dict String Layer1
  pub wcs_formats_by_name : Dict String Format1
  pub published : List String

abbrev pub Args : Type 0
Args = Dict String String

abbrev pub missing : {A : Type 0} → String → Result Wcs1Error A
missing locator = err (wcs1_exception missing_parameter_value locator)

abbrev pub invalid : String → Wcs1Error
invalid locator = wcs1_exception invalid_parameter_value locator

-- `args[name]`, which is required
abbrev pub required : Args → String → String → Result Wcs1Error String
required args name locator =
    or_raise (lookup name args) (wcs1_exception missing_parameter_value locator)

unfoldable pub request_layer : Config1 → Args → Result Wcs1Error Layer1
request_layer cfg args = do
  name ← required args "coverage" "COVERAGE parameter"
  layer ←
      or_raise (lookup name cfg.layer_index)
        (wcs1_exception coverage_not_defined "COVERAGE parameter")
  raise_if (not layer.wcs) (wcs1_exception coverage_not_defined "COVERAGE parameter")
  ok layer

unfoldable pub request_format1 : Config1 → Args → Result Wcs1Error Format1
request_format1 cfg args = do
  name ← required args "format" "FORMAT parameter"
  or_raise (lookup name cfg.wcs_formats_by_name) (invalid "FORMAT parameter")

unfoldable pub request_crs1 : Config1 → Args → Result Wcs1Error String
request_crs1 cfg args = do
  crs ← required args "crs" "CRS parameter"
  raise_if (not (contains crs cfg.published)) (invalid "CRS parameter")
  ok crs

unfoldable pub response_crs1 : Config1 → Args → String → Result Wcs1Error String
response_crs1 cfg args crs = elim (lookup "response_crs" args) [
  | none ↦ ok crs
  | some response ↦
      if contains response cfg.published
      then ok response
      else err (invalid "RESPONSE_CRS parameter")
]

-- `sort`, of a list of dates
abbrev pub insert_date : ℕ → List ℕ → List ℕ
insert_date t [] = t ∷ []
insert_date t (u ∷ us) = if leb t u then t ∷ u ∷ us else u ∷ insert_date t us

abbrev pub sort_dates : List ℕ → List ℕ
sort_dates [] = []
sort_dates (t ∷ ts) = insert_date t (sort_dates ts)

-- The loop over the texts of the time argument.
pub listed_dates : (String → Option ℕ) → List ℕ → List String → Result Wcs1Error (List ℕ)
listed_dates parse_date time_set [] = ok []
listed_dates parse_date time_set (t ∷ ts) =
    let rest = listed_dates parse_date time_set ts in
    if t == "now"
    then rest
    else (or_raise (parse_date t) (invalid "TIME parameter") >>= λ time.
        (raise_if (not (contains time time_set)) (invalid "TIME parameter")
          >> (rest >>= λ times. ok (time ∷ times))))

-- (The message of the exception for several times reads `self.format["name"]` of a WCSFormat, which has
-- no items: that is a TypeError.)
unfoldable pub request_times :
    (String → Option ℕ) → Layer1 → Format1 → Args → Result Wcs1Error (List ℕ)
unfolding listed_dates
request_times parse_date layer fmt args = elim (lookup "time" args) [
  | none ↦ ok (layer.default_time ∷ [])
  | some text ↦ do
    listed ← listed_dates parse_date layer.time_set (split b',' text)
    let times = sort_dates listed
    raise_if (length times == 0) (invalid "TIME parameter")
    raise_if (ltb 1 (length times) && not fmt.multi_time) type_error
    ok times
]

-- `band_labels`
unfoldable pub band_labels : Layer1 → List (Option String)
band_labels layer = map layer.band_label (band_names layer.band_cfg)

-- `get_bands_from_styles`; a set is a list without repetitions.
pub style_bands : List String → List String → List String
style_bands flags [] = []
style_bands flags (b ∷ bs) =
    let rest = style_bands flags bs in
    if contains b flags || contains b rest then rest else b ∷ rest

unfoldable pub get_bands_from_styles : String → Layer1 → Result Wcs1Error (List String)
unfolding style_bands
get_bands_from_styles styles layer = elim (split b',' styles) [
  | [] ↦ err (wcs1_exception no_code "")
  | name ∷ [] ↦ elim (lookup name layer.style_index) [
    | none ↦ ok []
    | some style ↦ ok (style_bands style.flag_bands style.needed_bands)
  ]
  | name ∷ _ ∷ _ ↦ err (wcs1_exception no_code "")
]

-- The loop over the names of the measurements.
pub measured_bands : Layer1 → List String → Result Wcs1Error (List (Option String))
measured_bands layer [] = ok []
measured_bands layer (b ∷ bs) =
    let rest = measured_bands layer bs in
    if b == ""
    then rest
    else elim (locale_band layer.band_label layer.band_cfg layer.band_index b) [
      | ok name ↦ rest >>= λ names. ok (some name ∷ names)
      | err _ ↦ err (invalid "MEASUREMENTS parameter")
    ]

abbrev pub or_all : Layer1 → List String → List (Option String)
or_all layer [] = band_labels layer
or_all layer (b ∷ bs) = map some (b ∷ bs)

-- The bands; without measurements those of a style, or else the labels of all.
unfoldable pub request_bands1 : Layer1 → Args → Result Wcs1Error (List (Option String))
unfolding measured_bands
request_bands1 layer args = elim (lookup "measurements" args) [
  | some text ↦ do
    bands ← measured_bands layer (split b',' text)
    raise_if (text == "") (invalid "MEASUREMENTS parameter")
    ok bands
  | none ↦ elim (lookup "styles" args) [
    | none ↦ ok (band_labels layer)
    | some styles ↦
        let of_styles = get_bands_from_styles styles layer >>= λ bands. ok (or_all layer bands) in
        if styles == "" then ok (band_labels layer) else of_styles
  ]
]

-- An argument that may only have one value.
abbrev pub only : String → String → String → Args → Result Wcs1Error (Unit {0})
only name value locator args = elim (lookup name args) [
  | none ↦ ok tt
  | some given ↦ raise_if (not (given == value)) (invalid locator)
]
