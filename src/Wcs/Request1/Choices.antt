-- ===== src/Wcs/Request1/Choices.antt =====
-- What a WCS 1 request that is accepted asks for.
use datacube_ows.Base.{
  ℕ, ◌≤◌, ◌≡◌, ◌≢◌, ◌⊎◌, inl, inr, refl, ap, Bool, true, Option, some, List, [], ◌∷◌, String, ok,
  >>=-eq-ok, ok_injective, lookup, contains, length, leb, ltb, All, arith, string_eq, nat_eq, ◌==◌,
  Option-cases, Bool-cases, Result-cases, subst,
}
use datacube_ows.Base.Text.{split}
use datacube_ows.Base.Int.{pos, int_eq}
use datacube_ows.Base.Float.{Floats}
use datacube_ows.Wcs.Request1.{
  Layer1, Format1, Config1, Args, request_layer, request_format1, request_crs1, response_crs1,
  request_times, request_bands1, only, listed_dates, sort_dates, insert_date,
}
use datacube_ows.Wcs.Grid1.{
  Box1, Size1, Affine1, request_box, response_box, request_size, request_affine,
}
use datacube_ows.Wcs.Request1.Parsed.{CoverageRequest1, Calls1, coverage_request1}

-- From the earliest to the latest.
abbrev pub Ascending : List ℕ → Type 0
Ascending [] = Unit
Ascending (t ∷ []) = Unit
Ascending (t ∷ u ∷ us) = (t ≤ u) × Ascending (u ∷ us)

insert_above :
    (t u : ℕ) (us : List ℕ) → u ≤ t → Ascending (u ∷ us) → Ascending (u ∷ insert_date t us)
insert_above t u [] p h = (p, tt)
insert_above t u (v ∷ vs) p (q, h) = elim (Bool-cases (leb t v)) [
  | inl below ↦
      subst Ascending {x = u ∷ t ∷ v ∷ vs} {y = u ∷ insert_date t (v ∷ vs)} (ground arith)
        (p, (ground arith, h))
  | inr above ↦
      subst Ascending {x = u ∷ v ∷ insert_date t vs} {y = u ∷ insert_date t (v ∷ vs)} (ground arith)
        (q, insert_above t v vs (ground arith) h)
]

Ascending-insert_date : (t : ℕ) (ts : List ℕ) → Ascending ts → Ascending (insert_date t ts)
Ascending-insert_date t [] h = tt
Ascending-insert_date t (u ∷ us) h = elim (Bool-cases (leb t u)) [
  | inl below ↦ subst Ascending {x = t ∷ u ∷ us} (ground arith) (ground arith, h)
  | inr above ↦
      subst Ascending {x = u ∷ insert_date t us} (ground arith)
        (insert_above t u us (ground arith) h)
]

Ascending-sort_dates : (ts : List ℕ) → Ascending (sort_dates ts)
Ascending-sort_dates [] = tt
Ascending-sort_dates (t ∷ ts) = Ascending-insert_date t (sort_dates ts) (Ascending-sort_dates ts)

module _ (ok_date : ℕ → Bool) where
  All-insert_date :
      (t : ℕ) (ts : List ℕ)
      → ok_date t ≡ true
      → All (λ u. ok_date u ≡ true) ts
      → All (λ u. ok_date u ≡ true) (insert_date t ts)
  All-insert_date t [] p h = (p, tt)
  All-insert_date t (u ∷ us) p (q, h) = elim (Bool-cases (leb t u)) [
    | inl below ↦ subst (All (λ u. ok_date u ≡ true)) {x = t ∷ u ∷ us} (ground arith) (p, (q, h))
    | inr above ↦
        subst (All (λ u. ok_date u ≡ true)) {x = u ∷ insert_date t us} (ground arith)
          (q, All-insert_date t us p h)
  ]

  All-sort_dates :
      (ts : List ℕ) → All (λ u. ok_date u ≡ true) ts → All (λ u. ok_date u ≡ true) (sort_dates ts)
  All-sort_dates [] h = tt
  All-sort_dates (t ∷ ts) (p, h) = All-insert_date t (sort_dates ts) p (All-sort_dates ts h)

listed_dates-All :
    (parse_date : String → Option ℕ) (time_set : List ℕ) (texts : List String) (times : List ℕ)
    → listed_dates parse_date time_set texts ≡ ok times
    → All (λ t. contains t time_set ≡ true) times
unfolding listed_dates
listed_dates-All parse_date time_set [] times e =
    subst (All (λ t. contains t time_set ≡ true)) {x = []} (ok_injective e) tt
listed_dates-All parse_date time_set (t ∷ texts) times e = elim (Bool-cases (t == "now")) [
  | inl now ↦ listed_dates-All parse_date time_set texts times (ground arith)
  | inr other ↦ elim (Option-cases (parse_date t)) [
    | inl unreadable ↦ absurd (ground arith)
    | inr (time, read) ↦ elim (Bool-cases (contains time time_set)) [
      | inr unknown ↦ absurd (ground arith)
      | inl known ↦ elim (Result-cases (listed_dates parse_date time_set texts)) [
        | inr failed ↦ absurd (ground arith)
        | inl (rest, listed) ↦
            subst (All (λ u. contains u time_set ≡ true)) {x = time ∷ rest} (ground arith)
              (known, listed_dates-All parse_date time_set texts rest listed)
      ]
    ]
  ]
]

-- Times that a request may ask for: the default of the layer alone, or some of its dates in order, and
-- more than one only in a format that holds several.
abbrev pub TimesFor : Layer1 → Format1 → List ℕ → Type 0
TimesFor layer fmt times =
    ((times ≡ layer.default_time ∷ []) ⊎ All (λ t. contains t layer.time_set ≡ true) times)
    × Ascending times
    × (times ≢ [])
    × (ltb 1 (length times) ≡ true → fmt.multi_time ≡ true)

request_times-TimesFor :
    (parse_date : String → Option ℕ) (layer : Layer1) (fmt : Format1) (args : Args) (times : List ℕ)
    → request_times parse_date layer fmt args ≡ ok times
    → TimesFor layer fmt times
unfolding request_times
request_times-TimesFor parse_date layer fmt args times e =
    elim (Option-cases (lookup "time" args)) [
      | inl absent ↦
          subst (TimesFor layer fmt) {x = layer.default_time ∷ []} (ground arith)
            (inl refl, tt, (λ h. cc), (λ h. ground (arith, h)))
      | inr (text, given) ↦
          elim (Result-cases (listed_dates parse_date layer.time_set (split b',' text))) [
            | inr failed ↦ absurd (ground arith)
            | inl (listed, read) ↦
                let known =
                  All-sort_dates (λ t. contains t layer.time_set) listed
                    (listed_dates-All parse_date layer.time_set (split b',' text) listed read) in
                elim (Bool-cases (length (sort_dates listed) == 0)) [
                  | inl empty ↦ absurd (ground arith)
                  | inr filled ↦ subst (TimesFor layer fmt) {x = sort_dates listed} (ground arith) (
                    inr known,
                    Ascending-sort_dates listed,
                    (λ h. ground (arith, ap length h)),
                    (λ h. ground (arith, h)),
                  )
                ]
          ]
    ]

-- The layer that the request names, which WCS serves.
abbrev pub ServedBy : Config1 → Args → Layer1 → Type 0
ServedBy cfg args layer =
    (name : String) × (lookup "coverage" args ≡ some name)
    × (lookup name cfg.layer_index ≡ some layer)
    × (layer.wcs ≡ true)

request_layer-ServedBy :
    (cfg : Config1) (args : Args) (layer : Layer1)
    → request_layer cfg args ≡ ok layer
    → ServedBy cfg args layer
unfolding request_layer
request_layer-ServedBy cfg args layer e = elim (Option-cases (lookup "coverage" args)) [
  | inl absent ↦ absurd (ground arith)
  | inr (name, given) ↦ elim (Option-cases (lookup name cfg.layer_index)) [
    | inl unknown ↦ absurd (ground arith)
    | inr (found, known) ↦ (name, given, ground arith, ground arith)
  ]
]

request_crs1-published :
    (cfg : Config1) (args : Args) (crs : String)
    → request_crs1 cfg args ≡ ok crs
    → contains crs cfg.published ≡ true
unfolding request_crs1
request_crs1-published cfg args crs e = ground arith

response_crs1-published :
    (cfg : Config1) (args : Args) (crs response : String)
    → contains crs cfg.published ≡ true
    → response_crs1 cfg args crs ≡ ok response
    → contains response cfg.published ≡ true
unfolding response_crs1
response_crs1-published cfg args crs response h e = ground arith

request_affine-nonzero :
    (fl : Floats) (box : Box1 fl) (size : Size1 fl) (affine : Affine1 fl)
    → request_affine fl box size ≡ ok affine
    → (size.width ≢ pos 0) × (size.height ≢ pos 0)
unfolding request_affine
request_affine-nonzero fl box size affine e = (
  λ h. ground (arith, int_eq.beq_iff size.width (pos 0)),
  λ h. ground (arith, int_eq.beq_iff size.height (pos 0)),
)

-- A WCS 1 request that is accepted is for a layer of the configuration that WCS serves, between two
-- published coordinate systems, for the default time of the layer alone or for dates of it in order, more
-- than one only in a format that holds several, and for a size that is not 0.
pub coverage_request1_sound :
    (fl : Floats) (calls : Calls1 fl) (cfg : Config1) (args : Args) (r : CoverageRequest1 fl)
    → coverage_request1 fl calls cfg args ≡ ok r
    → ServedBy cfg args r.layer
      × (contains r.request_crs cfg.published ≡ true)
      × (contains r.response_crs cfg.published ≡ true)
      × TimesFor r.layer r.format r.times
      × (r.size.width ≢ pos 0)
      × (r.size.height ≢ pos 0)
unfolding coverage_request1
coverage_request1_sound fl calls cfg args r e =
    let (layer, served, e1) = >>=-eq-ok (request_layer cfg args) _ e in
    let (fmt, _, e2) = >>=-eq-ok (request_format1 cfg args) _ e1 in
    let (crs, requested, e3) = >>=-eq-ok (request_crs1 cfg args) _ e2 in
    let (response, answered, e4) = >>=-eq-ok (response_crs1 cfg args crs) _ e3 in
    let (given, _, e5) = >>=-eq-ok (request_box fl calls.parse_float args) _ e4 in
    let (times, timed, e6) = >>=-eq-ok (request_times calls.parse_date layer fmt args) _ e5 in
    let (bands, _, e7) = >>=-eq-ok (request_bands1 layer args) _ e6 in
    let (_, _, e8) =
      >>=-eq-ok (only "exceptions" "application/vnd.ogc.se_xml" "EXCEPTIONS parameter" args) _ e7 in
    let (_, _, e9) =
      >>=-eq-ok (only "interpolation" "nearest neighbor" "INTERPOLATION parameter" args) _ e8 in
    let box = response_box fl calls.same_crs calls.to_crs crs response given in
    let (size, _, e10) = >>=-eq-ok (request_size fl calls.parse_float args box) _ e9 in
    let (affine, made, e11) = >>=-eq-ok (request_affine fl box size) _ e10 in
    let published = request_crs1-published cfg args crs requested in
    let nonzero = request_affine-nonzero fl box size affine made in
    let Sound : CoverageRequest1 fl → Type 0 = λ q.
      ServedBy cfg args q.layer
      × (contains q.request_crs cfg.published ≡ true)
      × (contains q.response_crs cfg.published ≡ true)
      × TimesFor q.layer q.format q.times
      × (q.size.width ≢ pos 0)
      × (q.size.height ≢ pos 0) in
    subst Sound (ok_injective e11) (
      request_layer-ServedBy cfg args layer served,
      published,
      response_crs1-published cfg args crs response published answered,
      request_times-TimesFor calls.parse_date layer fmt args times timed,
      nonzero.0,
      nonzero.1,
    )
