-- ===== src/Wms/Times/Valid.antt =====
-- The times that a layer accepts.
use datacube_ows.Base.{
  ℕ, ◌%◌, ◌≡◌, ◌⊎◌, inl, inr, true, false, Option, none, some, List, [], ◌∷◌, String, string_eq,
  nat_eq, ◌==◌, ◌&&◌, not, ok, or_raise, >>=-eq-ok, Bool-cases, Bool, Dict, lookup, All, traverse,
  subst, ok_injective, raise_if-ok, if◌then◌else◌, contains, ltb, arith,
}
use datacube_ows.Base.Text.{split, lower}
use datacube_ows.Wms.Times.{
  invalid_time, type_error, any_time, not_specified, arg_or_empty, get_arg, get_times, Calendar,
  LayerTimes, last_of, last?, parse_wms_time_strings, key, times_within, single_time, first_time,
  parse_time_item, parse_parts, check_time, days_between,
}

-- An argument that is accepted is a permitted one.
pub get_arg-contains :
    (args : Dict String String) (name : String) (lowered : Bool) (p : String) (ps : List String)
    (v : String)
    → get_arg args name lowered (p ∷ ps) ≡ ok v
    → contains v (p ∷ ps) ≡ true
unfolding get_arg
get_arg-contains args name lowered p ps v h =
    let raw = arg_or_empty (lookup name args) in
    let fmt = if lowered then lower raw else raw in
    let (_, passed) = raise_if-ok (fmt == "") (not_specified name) _ h in
    elim (Bool-cases (contains fmt (p ∷ ps))) [
      | inl known ↦ subst (λ w. contains w (p ∷ ps) ≡ true) {x = fmt} (ground arith) known
      | inr other ↦ absurd (ground arith)
    ]

last?-contains : (ts : List ℕ) (t : ℕ) → last? ts ≡ some t → contains t ts ≡ true
last?-contains [] t h = ground arith
last?-contains (x ∷ []) t h = ground arith
last?-contains (x ∷ y ∷ ts) t h = ground (arith, last?-contains (y ∷ ts) t h)

module _ {P : Type 0} (cal : Calendar P) where
  abbrev pub OnAxis : LayerTimes → Option (ℕ × ℕ × ℕ) → ℕ → Type 0
  OnAxis layer none t = (layer.is_subday ≡ true) × (layer.has_match t ≡ true)
  OnAxis layer (some (start, end, interval)) t =
      (ltb t start ≡ false)
      × (ltb end t ≡ false)
      × ((days_between cal layer start t % interval == 0) ≡ true)

  -- A time that a layer has: one of its times, one that matches one of them to the second if it has
  -- several a day, or one of its regular time axis.
  abbrev pub Has : LayerTimes → ℕ → Type 0
  Has layer t = (contains t layer.times ≡ true) ⊎ OnAxis layer layer.regular_time_axis t

  first_within :
      (start end : ℕ) (ts : List ℕ) (t : ℕ)
      → first_time cal (times_within cal start end ts) ≡ ok t
      → contains t ts ≡ true
  first_within start end [] t h = ground arith
  first_within start end (u ∷ us) t h =
      ground (arith, nat_eq.beq_iff t u, first_within start end us t)

  check_time-Has :
      (layer : LayerTimes) (axis : Option (ℕ × ℕ × ℕ)) (time t : ℕ)
      → check_time cal layer axis time ≡ ok t
      → (contains t layer.times ≡ true) ⊎ OnAxis layer axis t
  unfolding check_time
  check_time-Has layer none time t h = ground arith
  check_time-Has layer (some (start, end, interval)) time t h = inr (ground arith)

  single_time-Has :
      (layer : LayerTimes) (text : String) (t : ℕ) → single_time cal layer text ≡ ok t → Has layer t
  unfolding single_time
  single_time-Has layer text t h =
      let (parsed, _, h1) = >>=-eq-ok (or_raise (cal.parse_time text) invalid_time) _ h in
      check_time-Has layer layer.regular_time_axis (key cal layer parsed) t h1

  item_of_parts-Has :
      (layer : LayerTimes) (parts : List String) (t : ℕ)
      → parse_parts cal layer parts ≡ ok t
      → Has layer t
  unfolding parse_parts
  item_of_parts-Has layer [] t h = ground arith
  item_of_parts-Has layer (text ∷ []) t h = elim (Bool-cases (text == "")) [
    | inl empty ↦ inl (last?-contains layer.times t (ground (arith, empty, h)))
    | inr given ↦ single_time-Has layer text t (ground (arith, given, h))
  ]
  item_of_parts-Has layer (first ∷ second ∷ more) t h =
      let (r, _, h1) = >>=-eq-ok (parse_wms_time_strings cal first (last_of second more)) _ h in
      let (_, h2) =
        raise_if-ok (layer.is_subday && not r.2 && any_time layer.times) type_error _ h1 in
      inl (first_within (key cal layer r.0) (key cal layer r.1) layer.times t h2)

  -- Every time that is accepted from a request is one that the layer has.
  pub parse_time_item-Has :
      (layer : LayerTimes) (item : String) (t : ℕ)
      → parse_time_item cal layer item ≡ ok t
      → Has layer t
  unfolding parse_time_item
  parse_time_item-Has layer item t h = item_of_parts-Has layer (split b'/' item) t h

  traverse-Has :
      (layer : LayerTimes) (items : List String) (times : List ℕ)
      → traverse (parse_time_item cal layer) items ≡ ok times
      → All (Has layer) times
  traverse-Has layer [] times h = subst (All (Has layer)) {x = []} (ok_injective h) tt
  traverse-Has layer (item ∷ items) times h =
      let (t, first, h1) = >>=-eq-ok (parse_time_item cal layer item) _ h in
      let (ts, others, h2) = >>=-eq-ok (traverse (parse_time_item cal layer) items) _ h1 in
      subst (All (Has layer)) {x = t ∷ ts} (ok_injective h2)
        (parse_time_item-Has layer item t first, traverse-Has layer items ts others)

  pub get_times-Has :
      (layer : LayerTimes) (args : Dict String String) (times : List ℕ)
      → get_times cal layer args ≡ ok times
      → All (Has layer) times
  unfolding get_times
  get_times-Has layer args times h =
      traverse-Has layer (split b',' (arg_or_empty (lookup "time" args))) times h
