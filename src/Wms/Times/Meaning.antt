-- ===== src/Wms/Times/Meaning.antt =====
-- Which time of a layer the text of a request means.
use datacube_ows.Base.{
  ℕ, ◌≤◌, ◌-◌, ◌/◌, ◌%◌, if◌then◌else◌, contains, ◌≡◌, ◌≢◌, ◌⊎◌, inl, inr, ap, true, false, ◌&&◌,
  not, Option, none, some, List, [], ◌∷◌, ◌++◌, String, string_eq, nat_eq, ◌==◌, ok, >>=-eq-ok,
  raise_if-ok, Bool-cases, Option-cases, All, leb, arith,
}
use datacube_ows.Base.Text.{split}
use datacube_ows.Wms.Times.Ends.{Ends, parse_wms_time_strings-Ends}
use datacube_ows.Wms.Times.{
  type_error, any_time, Calendar, LayerTimes, last_of, last?, parse_wms_time_strings, key,
  times_within, single_time, first_time, parse_time_item, parse_parts, check_time, days_between,
}

-- The last of a list.
abbrev pub Last : List ℕ → ℕ → Type 0
Last ts t = (earlier : List ℕ) × (ts ≡ earlier ++ t ∷ [])

-- The first of a list between two bounds.
abbrev pub FirstWithin : ℕ → ℕ → List ℕ → ℕ → Type 0
FirstWithin low high ts t =
    (before : List ℕ) × (after : List ℕ) × (ts ≡ before ++ t ∷ after)
    × All (λ u. ¬ ((low ≤ u) × (u ≤ high))) before
    × (low ≤ t)
    × (t ≤ high)

last?-Last : (ts : List ℕ) (t : ℕ) → last? ts ≡ some t → Last ts t
last?-Last [] t h = cc
last?-Last (x ∷ []) t h = ([], cc)
last?-Last (x ∷ y ∷ ts) t h =
    let (earlier, is) = last?-Last (y ∷ ts) t h in (x ∷ earlier, ap (λ r. x ∷ r) is)

module _ {P : Type 0} (cal : Calendar P) where
  first_time-FirstWithin :
      (low high : ℕ) (ts : List ℕ) (t : ℕ)
      → first_time cal (times_within cal low high ts) ≡ ok t
      → FirstWithin low high ts t
  first_time-FirstWithin low high [] t h = absurd (ground arith)
  first_time-FirstWithin low high (u ∷ us) t h = elim (Bool-cases (leb low u && leb u high)) [
    | inl within ↦
        let is : u ≡ t = ground (arith, within, h) in
        ([], us, ap (λ r. r ∷ us) is, tt, ground (arith, within, is), ground (arith, within, is))
    | inr outside ↦
        let (before, after, split_at, others, low_t, high_t) =
          first_time-FirstWithin low high us t (ground (arith, outside, h)) in
        (
          u ∷ before,
          after,
          ap (λ r. u ∷ r) split_at,
          ((λ (a, b). ground (arith, outside, a, b)), others),
          low_t,
          high_t,
        )
  ]

  -- A time that a layer accepts: within its regular time axis and a whole number of intervals from its
  -- start; without such an axis, one that matches its times if it has several a day, or else one of them.
  abbrev pub Accepts : LayerTimes → Option (ℕ × ℕ × ℕ) → ℕ → Type 0
  Accepts layer none t =
      ((layer.is_subday ≡ true) × (layer.has_match t ≡ true))
      ⊎ ((layer.is_subday ≡ false) × (contains t layer.times ≡ true))
  Accepts layer (some (start, end, interval)) t =
      (start ≤ t)
      × (t ≤ end)
      × ((if layer.is_subday then (t - start) / cal.microseconds_per_day else t - start) % interval
          ≡ 0)

  check_time-Accepts :
      (layer : LayerTimes) (axis : Option (ℕ × ℕ × ℕ)) (time t : ℕ)
      → check_time cal layer axis time ≡ ok t
      → (t ≡ time) × Accepts layer axis t
  unfolding check_time
  check_time-Accepts layer none time t h = elim (Bool-cases layer.is_subday) [
    | inl subday ↦ (ground (arith, subday, h), inl (subday, ground (arith, subday, h)))
    | inr daily ↦ (ground (arith, daily, h), inr (daily, ground (arith, daily, h)))
  ]
  check_time-Accepts layer (some (start, end, interval)) time t h =
      let days = days_between cal layer start time % interval in
      (
        ground (arith, h),
        (ground (arith, h), ground (arith, h), ground (arith, h, nat_eq.beq_iff days 0)),
      )

  single_time-Accepts :
      (layer : LayerTimes) (text : String) (t : ℕ)
      → single_time cal layer text ≡ ok t
      → (parsed : ℕ) × (cal.parse_time text ≡ some parsed)
        × (t ≡ key cal layer parsed)
        × Accepts layer layer.regular_time_axis t
  unfolding single_time
  single_time-Accepts layer text t h = elim (Option-cases (cal.parse_time text)) [
    | inl unreadable ↦ absurd (ground (arith, unreadable, h))
    | inr (parsed, read) ↦
        let (is, accepted) =
          check_time-Accepts layer layer.regular_time_axis (key cal layer parsed) t
            (ground (arith, read, h)) in
        (parsed, read, is, accepted)
  ]

  -- What the parts of a text, between slashes, mean: the last time of the layer where there is nothing;
  -- the time that a single text is read as, if it is on the regular time axis of the layer, or among its
  -- times where it has no such axis; and the first time of the layer in a range.
  abbrev pub Means : LayerTimes → List String → ℕ → Type 0
  Means layer [] t = ⊥
  Means layer (text ∷ []) t =
      ((text ≡ "") × Last layer.times t)
      ⊎ ((text ≢ "")
          × ((parsed : ℕ) × (cal.parse_time text ≡ some parsed)
              × (t ≡ key cal layer parsed)
              × Accepts layer layer.regular_time_axis t))
  Means layer (first ∷ second ∷ more) t =
      (start : ℕ) × (end : ℕ) × Ends cal first (last_of second more) start end
      × FirstWithin (key cal layer start) (key cal layer end) layer.times t

  parse_parts-Means :
      (layer : LayerTimes) (parts : List String) (t : ℕ)
      → parse_parts cal layer parts ≡ ok t
      → Means layer parts t
  unfolding parse_parts
  parse_parts-Means layer [] t h = absurd (ground arith)
  parse_parts-Means layer (text ∷ []) t h = elim (Bool-cases (text == "")) [
    | inl empty ↦
        inl
          ((string_eq.beq_iff text "").0 empty, last?-Last layer.times t (ground (arith, empty, h)))
    | inr given ↦ inr (
      (λ e. ground (arith, given, string_eq.beq_iff text "", e)),
      single_time-Accepts layer text t (ground (arith, given, h)),
    )
  ]
  parse_parts-Means layer (first ∷ second ∷ more) t h =
      let (r, read, h1) = >>=-eq-ok (parse_wms_time_strings cal first (last_of second more)) _ h in
      let ends = parse_wms_time_strings-Ends cal first (last_of second more) r.0 r.1 r.2 read in
      let (_, h2) =
        raise_if-ok (layer.is_subday && not r.2 && any_time layer.times) type_error _ h1 in
      let (before, after, split_at, others, low, high) =
        first_time-FirstWithin (key cal layer r.0) (key cal layer r.1) layer.times t h2 in
      (r.0, r.1, ends, (before, after, split_at, others, low, high))

  -- If the text of a time is accepted, the time is the last one of the layer where the text is empty;
  -- where it has no slash the one that it is read as, a day unless the layer has several times a day,
  -- and this is on the regular time axis of the layer or, without one, is among its times, or matches
  -- one of several a day; and for a range the first time of the layer that is between its two ends, those
  -- included: the two times that are read, or, where one text is a period, the other time and the end
  -- that this period has after or before it, which is left out.
  pub parse_time_item-Means :
      (layer : LayerTimes) (item : String) (t : ℕ)
      → parse_time_item cal layer item ≡ ok t
      → Means layer (split b'/' item) t
  unfolding parse_time_item
  parse_time_item-Means layer item t h = parse_parts-Means layer (split b'/' item) t h
