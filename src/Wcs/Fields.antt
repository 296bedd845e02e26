-- ===== src/Wcs/Fields.antt =====
-- The coordinate systems, bands, formats and times of a WCS 2 request (`uniform_crs` and parts of
-- `get_coverage_data`, datacube_ows/wcs2_utils.py). A date or datetime is a number, larger for later;
-- `parse` (dateutil) may fail, and gives dates where the layer has one time a day, datetimes (in UTC if
-- naive) where it has more.
pub mod Choices
use Prim.Native.String.{◌++◌ as concat}
use datacube_ows.Base.{
  ℕ, ◌+◌, ◌-◌, Bool, true, false, ◌&&◌, ◌||◌, not, Option, none, some, List, [], ◌∷◌, ◌++◌, String,
  ◌==◌, string_eq, nat_eq, if◌then◌else◌, Result, ok, err, ◌>>=◌, ◌>>◌, raise_if, or_raise, Dict,
  lookup, contains, length, take, drop, leb, ltb,
}
use datacube_ows.Base.Text.{codes, starts_with, last_part}
use datacube_ows.Wcs.Scaler.{ScalerError}

pub data CoverageError : Type 0 where
  no_such_coverage : String → CoverageError
  not_a_crs subsetting_crs_not_supported output_crs_not_supported : String → CoverageError
  duplicate_dimensions duplicate_axes : CoverageError
  more_than_two_times : CoverageError
  invalid_axis_label cannot_scale_axis : String → CoverageError
  no_such_field illegal_field_sequence : String → CoverageError
  unsupported_format : String → CoverageError
  no_multi_time : CoverageError
  -- Errors that this code does not catch.
  uncaught_scaler : ScalerError → CoverageError
  type_error parse_error key_error : CoverageError

-- `uniform_crs`; `published` tells the keys of `published_CRSs`.
unfoldable pub uniform_crs : (String → Bool) → String → Result CoverageError String
uniform_crs published crs =
    if starts_with "http://www.opengis.net/def/crs/EPSG/" crs
    then ok (concat "EPSG:" (last_part b'/' crs))
    else if starts_with "urn:ogc:def:crs:EPSG:" crs
    then ok (concat "EPSG:" (last_part b':' crs))
    else if starts_with "EPSG" crs || published crs
    then ok crs
    else err (not_a_crs crs)

-- `len(names) != len(set(names))`
unfoldable pub has_duplicates : List String → Bool
has_duplicates [] = false
has_duplicates (n ∷ ns) = contains n ns || has_duplicates ns

-- An item of a range subset: one band, or those from one to another.
pub data RangeItem : Type 0 where
  field : String → RangeItem
  interval : String → String → RangeItem

-- `xs.index(x)`
abbrev pub index_of : String → List String → ℕ
index_of x [] = 0
index_of x (y ∷ ys) = if x == y then 0 else 1 + index_of x ys

-- `xs[start:stop]`
abbrev pub slice_to : {A : Type 0} → ℕ → ℕ → List A → List A
slice_to start stop xs = take (stop - start) (drop start xs)

-- `band_labels[start:(end + 1) if end > start else (end - 1)]`, where -1 counts from the end.
pub field_slice : ℕ → ℕ → List String → List String
field_slice start end labels =
    if ltb start end
    then slice_to start (end + 1) labels
    else if end == 0
    then slice_to start (length labels - 1) labels
    else slice_to start (end - 1) labels

unfoldable pub item_bands : List String → RangeItem → Result CoverageError (List String)
unfolding field_slice
item_bands labels (field name) = do
  raise_if (not (contains name labels)) (no_such_field name)
  ok (name ∷ [])
item_bands labels (interval start end) = do
  raise_if (not (contains start labels)) (illegal_field_sequence start)
  raise_if (not (contains end labels)) (illegal_field_sequence end)
  ok (field_slice (index_of start labels) (index_of end labels) labels)

pub items_bands : List String → List RangeItem → Result CoverageError (List String)
unfolding item_bands
items_bands labels [] = ok []
items_bands labels (item ∷ items) = do
  bands ← item_bands labels item
  rest ← items_bands labels items
  ok (bands ++ rest)

-- The bands of a request; an absent or empty range subset asks for all.
unfoldable pub request_bands : List String → List RangeItem → Result CoverageError (List String)
unfolding items_bands
request_bands labels [] = ok labels
request_bands labels (item ∷ items) = items_bands labels (item ∷ items)

-- An output format of the configuration.
pub record Format : Type 0 where
  pub mime : String
  pub multi_time : Bool

-- The format of a request, by its MIME type or that of the layer.
unfoldable pub request_format :
    Dict String Format → Option Format → Option String → Result CoverageError Format
request_format by_mime native none = or_raise native key_error
request_format by_mime native (some mime) =
    if mime == ""
    then or_raise native key_error
    else or_raise (lookup mime by_mime) (unsupported_format mime)

-- A list without the times that a test refuses.
abbrev pub keep : (ℕ → Bool) → List ℕ → List ℕ
keep p [] = []
keep p (t ∷ ts) = let rest = keep p ts in if p t then t ∷ rest else rest

abbrev from_time : Option ℕ → List ℕ → List ℕ
from_time none times = times
from_time (some low) times = keep (λ t. leb low t) times

abbrev to_time : Option ℕ → List ℕ → List ℕ
to_time none times = times
to_time (some high) times = keep (λ t. leb t high) times

-- How a layer reads times.
pub record TimeModel : Type 0 where
  pub is_subday : Bool
  pub parse_date : String → Option ℕ
  pub parse_datetime : String → Option ℕ

-- A bound of a trim on time. In a layer with several times a day an open bound is passed on to
-- `default_to_utc`, which fails on None.
unfoldable pub time_bound : TimeModel → Option String → Result CoverageError (Option ℕ)
time_bound tm none = if tm.is_subday then err type_error else ok none
time_bound tm (some text) = do
  t ← or_raise (if tm.is_subday then tm.parse_datetime text else tm.parse_date text) parse_error
  ok (some t)

-- A trim on time. The upper bound is searched for a comma, which fails on None.
unfoldable pub trim_times :
    TimeModel → Option String → Option String → List ℕ → Result CoverageError (List ℕ)
unfolding time_bound
trim_times tm low high times = do
  text ← or_raise high type_error
  raise_if (contains b',' (codes text)) more_than_two_times
  l ← time_bound tm low
  h ← time_bound tm high
  ok (to_time h (from_time l times))

-- A slice is for its date, whatever the times of the layer.
unfoldable pub slice_time : TimeModel → String → Result CoverageError (List ℕ)
slice_time tm point = or_raise (tm.parse_date point) parse_error >>= λ t. ok (t ∷ [])
