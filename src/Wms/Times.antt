-- ===== src/Wms/Times.antt =====
-- The times of a WMS request (`get_times`, `parse_time_item`, `parse_wms_time_strings` and `get_arg` of
-- datacube_ows/wms_utils.py). A datetime is a number, larger for later. A layer holds its times as keys:
-- dates by their day if it has one time a day, else datetimes by their instant. The parsers, periods
-- (relativedelta) and the clock are parameters.
pub mod Valid
pub mod Ends
pub mod Meaning
use datacube_ows.Base.{
  ℕ, suc, ◌-◌, ◌/◌, ◌%◌, Bool, true, false, ◌&&◌, not, Option, none, some, List, [], ◌∷◌, String,
  ◌==◌, string_eq, nat_eq, if◌then◌else◌, Result, ok, err, ◌>>=◌, ◌>>◌, raise_if, or_raise,
  traverse, Dict, lookup, contains, leb, ltb,
}
use datacube_ows.Base.Text.{split, upper, lower, starts_with}

pub data TimeError : Type 0 where
  not_specified not_supported : String → TimeError
  two_periods : TimeError
  invalid_time invalid_range : TimeError
  -- Exceptions that the code does not catch; a datetime with a time zone is not compared with one without.
  index_error parse_error type_error : TimeError

abbrev pub arg_or_empty : Option String → String
arg_or_empty none = ""
arg_or_empty (some v) = v

-- `get_arg`; no permitted value means that all are.
unfoldable pub get_arg : Dict String String → String → Bool → List String → Result TimeError String
get_arg args name lowered permitted =
    let raw = arg_or_empty (lookup name args) in
    let fmt = if lowered then lower raw else raw in
    raise_if (fmt == "") (not_specified name) >> elim permitted [
      | [] ↦ ok fmt
      | p ∷ ps ↦ if contains fmt (p ∷ ps) then ok fmt else err (not_supported fmt)
    ]

-- What the code takes from Python and its packages: `P` is the type of periods.
pub record Calendar (P : Type 0) : Type 0 where
  pub utcnow : ℕ
  -- `parse_time_delta`
  pub parse_period : String → Option P
  -- `parse`, for the parts of a date that are missing from those of a start, or of an end
  pub parse_start : String → Option ℕ
  pub parse_end : String → Option ℕ
  pub parse_time : String → Option ℕ
  -- whether `parse` finds a time zone in a text
  pub has_zone : String → Bool
  pub after : ℕ → P → ℕ
  pub before : ℕ → P → ℕ
  pub day_of : ℕ → ℕ
  pub microseconds_per_day : ℕ

pub record LayerTimes : Type 0 where
  pub is_subday : Bool
  pub times : List ℕ
  -- The start, the end and the interval in days of a regular time axis.
  pub regular_time_axis : Option (ℕ × ℕ × ℕ)
  -- `find_matching_date` among the times
  pub has_match : ℕ → Bool

-- A datetime, or a period.
pub data Moment (P : Type 0) : Type 0 where
  at : ℕ → Moment P
  lasting : P → Moment P

abbrev pub last_of : String → List String → String
last_of t [] = t
last_of t (u ∷ us) = last_of u us

-- `xs[-1]`
abbrev pub last? : List ℕ → Option ℕ
last? [] = none
last? (x ∷ []) = some x
last? (x ∷ y ∷ xs) = last? (y ∷ xs)

abbrev pub any_time : List ℕ → Bool
any_time [] = false
any_time (t ∷ ts) = true

module _ {P : Type 0} (cal : Calendar P) where
  abbrev moment : Option ℕ → Result TimeError (Moment P)
  moment t = or_raise t parse_error >>= λ n. ok (at n)

  -- `parse_wms_time_string`
  pub parse_wms_time_string : String → Bool → Result TimeError (Moment P)
  parse_wms_time_string t start =
      let period = or_raise (cal.parse_period t) parse_error >>= λ p. ok (lasting p) in
      let time = moment (if start then cal.parse_start t else cal.parse_end t) in
      if upper t == "PRESENT"
      then ok (at cal.utcnow)
      else if starts_with "P" t
      then period
      else time

  -- The range of two moments, of which one may be a period; `last` is the text of the second. A tiny
  -- bit, one microsecond, keeps the far end of a period out, and a period that ends at a datetime is
  -- counted from that datetime as it is read for a start. The third value tells whether the two ends
  -- have a time zone where one is wanted: all have but those of a range that begins with a period, which
  -- are left as they are read.
  pub range_of_moments : String → Moment P → Moment P → Result TimeError (ℕ × ℕ × Bool)
  unfolding parse_wms_time_string
  range_of_moments last (at a) (at b) = ok (a, b, true)
  range_of_moments last (at a) (lasting p) = ok (a, cal.after a p - 1, true)
  range_of_moments last (lasting p) (lasting q) = err two_periods
  range_of_moments last (lasting p) (at b) = parse_wms_time_string last true >>= λ fuzzy_end.
      let zoned = if upper last == "PRESENT" then false else cal.has_zone last in
      elim fuzzy_end [ at f ↦ ok (suc (cal.before f p), b, zoned) | lasting _ ↦ err two_periods ]

  -- `parse_wms_time_strings` of the first and the last part; a naive datetime is read as UTC.
  unfoldable pub parse_wms_time_strings : String → String → Result TimeError (ℕ × ℕ × Bool)
  unfolding range_of_moments parse_wms_time_string
  parse_wms_time_strings first last = do
    start ← parse_wms_time_string first true
    end ← parse_wms_time_string last false
    range_of_moments last start end

  -- The key of a datetime among the times of a layer.
  abbrev pub key : LayerTimes → ℕ → ℕ
  key layer t = if layer.is_subday then t else cal.day_of t

  -- `[t for t in layer.ranges.times if start <= t <= end]`
  abbrev pub times_within : ℕ → ℕ → List ℕ → List ℕ
  times_within start end [] = []
  times_within start end (t ∷ ts) =
      let rest = times_within start end ts in if leb start t && leb t end then t ∷ rest else rest

  abbrev pub days_between : LayerTimes → ℕ → ℕ → ℕ
  days_between layer start t =
      if layer.is_subday then (t - start) / cal.microseconds_per_day else t - start

  -- The checks of a single time against the layer, by its regular time axis.
  pub check_time : LayerTimes → Option (ℕ × ℕ × ℕ) → ℕ → Result TimeError ℕ
  check_time layer (some (start, end, interval)) time =
      raise_if (ltb time start) invalid_time
      >> (raise_if (ltb end time) invalid_time
          >> (raise_if (not (days_between layer start time % interval == 0)) invalid_time
              >> ok time))
  check_time layer none time =
      let known = if layer.is_subday then layer.has_match time else contains time layer.times in
      raise_if (not known) invalid_time >> ok time

  -- A single time.
  unfoldable pub single_time : LayerTimes → String → Result TimeError ℕ
  unfolding check_time
  single_time layer text = or_raise (cal.parse_time text) invalid_time >>= λ parsed.
      check_time layer layer.regular_time_axis (key layer parsed)

  abbrev pub first_time : List ℕ → Result TimeError ℕ
  first_time [] = err invalid_range
  first_time (t ∷ ts) = ok t

  -- `parse_time_item`, on the parts between slashes
  pub parse_parts : LayerTimes → List String → Result TimeError ℕ
  unfolding parse_wms_time_strings single_time
  parse_parts layer [] = err index_error
  parse_parts layer (text ∷ []) =
      if text == "" then or_raise (last? layer.times) index_error else single_time layer text
  parse_parts layer (first ∷ second ∷ more) =
      parse_wms_time_strings first (last_of second more) >>= λ r.
      (raise_if (layer.is_subday && not r.2 && any_time layer.times) type_error
        >> first_time (times_within (key layer r.0) (key layer r.1) layer.times))

  unfoldable pub parse_time_item : LayerTimes → String → Result TimeError ℕ
  unfolding parse_parts
  parse_time_item layer item = parse_parts layer (split b'/' item)

  -- `get_times`
  unfoldable pub get_times : LayerTimes → Dict String String → Result TimeError (List ℕ)
  unfolding parse_time_item
  get_times layer args =
      let raw = arg_or_empty (lookup "time" args) in
      traverse (parse_time_item layer) (split b',' raw)
