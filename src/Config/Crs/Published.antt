-- ===== src/Config/Crs/Published.antt =====
-- What holds of the coordinate systems that a configuration publishes.
use datacube_ows.Base.{
  ◌≡◌, ap, sym, inl, inr, refl, Bool, true, not, ◌&&◌, some, List, [], ◌∷◌, String, ok, >>=-eq-ok,
  ok_injective, Dict, lookup, has_key, insert, lookup-insert, ◌==◌, string_eq, arith, Bool-cases,
  Option-cases, subst, or_raise,
}
use datacube_ows.Config.Crs.{
  CrsDef, RawCrs, alias, defined, Reading, CrsTable, def_of, check_axes, read_crs, read_all,
  default_geographic_crs, pacific, add_pacific, alias_def, add_aliases, nothing_read, parse_crses,
  key_error,
}

-- A geographic coordinate system has the axes longitude and latitude.
abbrev pub AxesOk : CrsDef → Type 0
AxesOk def =
    def.geographic ≡ true → (def.horizontal_coord ≡ "longitude") × (def.vertical_coord ≡ "latitude")

-- The axes are right, and an alias is of a coordinate system that is published.
abbrev pub EntryOk : Dict String CrsDef → CrsDef → Type 0
EntryOk published def =
    AxesOk def × ((target : String) → def.alias_of ≡ some target → has_key target published ≡ true)

abbrev pub PublishedOk : Dict String CrsDef → Type 0
PublishedOk published =
    (name : String) (def : CrsDef) → lookup name published ≡ some def → EntryOk published def

has_key-insert :
    (j k : String) (def : CrsDef) (d : Dict String CrsDef)
    → has_key j d ≡ true
    → has_key j (insert k def d) ≡ true
has_key-insert j k def d h = ground (arith, lookup-insert j k def d)

PublishedOk-insert :
    (published : Dict String CrsDef) (name : String) (def : CrsDef)
    → PublishedOk published
    → EntryOk published def
    → PublishedOk (insert name def published)
PublishedOk-insert published name def sound entry j found e = elim (Bool-cases (j == name)) [
  | inl same ↦
      let is : def ≡ found = ground (arith, lookup-insert j name def published) in
      subst (EntryOk (insert name def published)) is
        (entry.0, λ t a. has_key-insert t name def published (entry.1 t a))
  | inr other ↦
      let old = sound j found (ground (arith, lookup-insert j name def published)) in
      (old.0, λ t a. has_key-insert t name def published (old.1 t a))
]

check_axes-AxesOk :
    (name : String) (def : CrsDef) (u : Unit {0}) → check_axes name def ≡ ok u → AxesOk def
unfolding check_axes
check_axes-AxesOk name def u h geographic = ground (
  arith,
  string_eq.beq_iff def.horizontal_coord "longitude",
  string_eq.beq_iff def.vertical_coord "latitude",
)

read_crs-PublishedOk :
    (r : Reading) (name : String) (raw : RawCrs) (next : Reading)
    → PublishedOk r.published
    → read_crs r name raw ≡ ok next
    → PublishedOk next.published
unfolding read_crs def_of
read_crs-PublishedOk r name (alias target) next sound h =
    subst (λ q. PublishedOk q.published) (ok_injective h) sound
read_crs-PublishedOk r name (defined raw) next sound h =
    let (geographic, _, h1) = >>=-eq-ok (or_raise raw.geographic (key_error "geographic")) _ h in
    let def = def_of name raw geographic in
    let (u, checked, h2) = >>=-eq-ok (check_axes name def) _ h1 in
    subst (λ q. PublishedOk q.published) (ok_injective h2)
      (PublishedOk-insert r.published name def sound
        (check_axes-AxesOk name def u checked, λ target a. absurd cc))

read_all-PublishedOk :
    (r : Reading) (raws : Dict String RawCrs) (last : Reading)
    → PublishedOk r.published
    → read_all r raws ≡ ok last
    → PublishedOk last.published
unfolding read_all
read_all-PublishedOk r [] last sound h = subst (λ q. PublishedOk q.published) (ok_injective h) sound
read_all-PublishedOk r ((name, raw) ∷ raws) last sound h =
    let (next, read, h1) = >>=-eq-ok (read_crs r name raw) _ h in
    read_all-PublishedOk next raws last (read_crs-PublishedOk r name raw next sound read) h1

add_pacific-PublishedOk :
    (published : Dict String CrsDef) → PublishedOk published → PublishedOk (add_pacific published)
unfolding add_pacific pacific
add_pacific-PublishedOk published sound =
    elim (Bool-cases (has_key "EPSG:3857" published && not (has_key "EPSG:3832" published))) [
      | inr complete ↦ subst PublishedOk {x = published} (ground arith) sound
      | inl lacking ↦ subst PublishedOk {x = insert "EPSG:3832" pacific published} (ground arith) (
          PublishedOk-insert published "EPSG:3832" pacific sound
            ((λ g. absurd (ground arith)), λ target a. absurd (ground arith)))
    ]

add_aliases-PublishedOk :
    (published : Dict String CrsDef) (aliases : List (String × String))
    → PublishedOk published
    → PublishedOk (add_aliases published aliases)
unfolding add_aliases alias_def
add_aliases-PublishedOk published [] sound = sound
add_aliases-PublishedOk published ((name, target) ∷ aliases) sound =
    elim (Option-cases (lookup target published)) [
      | inl unknown ↦
          subst PublishedOk {x = add_aliases published aliases} (ground arith)
            (add_aliases-PublishedOk published aliases sound)
      | inr (def, known) ↦
          subst PublishedOk
            {x = add_aliases (insert name (alias_def name target def) published) aliases}
            (ground arith)
            (add_aliases-PublishedOk (insert name (alias_def name target def) published) aliases (
              PublishedOk-insert published name (alias_def name target def) sound
                ((λ g. (sound target def known).0 g), λ t a. ground arith)))
    ]

read_crs-internal :
    (r : Reading) (name : String) (raw : RawCrs) (next : Reading)
    → r.published ≡ r.internal
    → read_crs r name raw ≡ ok next
    → next.published ≡ next.internal
unfolding read_crs
read_crs-internal r name (alias target) next same h =
    subst (λ q. q.published ≡ q.internal) (ok_injective h) same
read_crs-internal r name (defined raw) next same h =
    let (geographic, _, h1) = >>=-eq-ok (or_raise raw.geographic (key_error "geographic")) _ h in
    let def = def_of name raw geographic in
    let (_, _, h2) = >>=-eq-ok (check_axes name def) _ h1 in
    subst (λ q. q.published ≡ q.internal) (ok_injective h2) (ap (insert name def) same)

read_all-internal :
    (r : Reading) (raws : Dict String RawCrs) (last : Reading)
    → r.published ≡ r.internal
    → read_all r raws ≡ ok last
    → last.published ≡ last.internal
unfolding read_all
read_all-internal r [] last same h = subst (λ q. q.published ≡ q.internal) (ok_injective h) same
read_all-internal r ((name, raw) ∷ raws) last same h =
    let (next, read, h1) = >>=-eq-ok (read_crs r name raw) _ h in
    read_all-internal next raws last (read_crs-internal r name raw next same read) h1

has_key-add_pacific :
    (name : String) (published : Dict String CrsDef)
    → has_key name published ≡ true
    → has_key name (add_pacific published) ≡ true
unfolding add_pacific
has_key-add_pacific name published h =
    ground (arith, has_key-insert name "EPSG:3832" pacific published h)

has_key-pacific :
    (published : Dict String CrsDef)
    → has_key "EPSG:3857" published ≡ true
    → has_key "EPSG:3832" (add_pacific published) ≡ true
unfolding add_pacific
has_key-pacific published h =
    ground (arith, lookup-insert "EPSG:3832" "EPSG:3832" pacific published)

has_key-add_aliases :
    (name : String) (published : Dict String CrsDef) (aliases : List (String × String))
    → has_key name published ≡ true
    → has_key name (add_aliases published aliases) ≡ true
unfolding add_aliases
has_key-add_aliases name published [] h = h
has_key-add_aliases name published ((other, target) ∷ aliases) h =
    elim (Option-cases (lookup target published)) [
      | inl unknown ↦ ground (arith, unknown, has_key-add_aliases name published aliases h)
      | inr (def, known) ↦
          let next = insert other (alias_def other target def) published in
          let kept = has_key-insert name other (alias_def other target def) published h in
          ground (arith, known, has_key-add_aliases name next aliases kept)
    ]

-- Where the coordinate systems of a configuration are accepted, the geographic ones that are published
-- have the axes longitude and latitude, an alias is of one that is published, all that are defined are
-- published, and with EPSG:3857 also EPSG:3832.
pub parse_crses-PublishedOk :
    (wcs : Bool) (raws : Dict String RawCrs) (t : CrsTable)
    → parse_crses wcs raws ≡ ok t
    → PublishedOk t.crses
      × ((name : String) → has_key name t.internal ≡ true → has_key name t.crses ≡ true)
      × (has_key "EPSG:3857" t.internal ≡ true → has_key "EPSG:3832" t.crses ≡ true)
unfolding parse_crses
parse_crses-PublishedOk wcs raws t h =
    let (r, read, h1) = >>=-eq-ok (read_all nothing_read raws) _ h in
    let (default, _, h2) = >>=-eq-ok (default_geographic_crs wcs r.geographic) _ h1 in
    let Complete : CrsTable → Type 0 = λ q.
      PublishedOk q.crses
      × ((name : String) → has_key name q.internal ≡ true → has_key name q.crses ≡ true)
      × (has_key "EPSG:3857" q.internal ≡ true → has_key "EPSG:3832" q.crses ≡ true) in
    let sound = read_all-PublishedOk nothing_read raws r (λ name def found. absurd cc) read in
    let same = read_all-internal nothing_read raws r refl read in
    let defined_first : (name : String)
        → has_key name r.internal ≡ true
        → has_key name r.published ≡ true =
      λ name k. subst (λ d. has_key name d ≡ true) (sym same) k in
    subst Complete (ok_injective h2) (
      add_aliases-PublishedOk (add_pacific r.published) r.aliases
          (add_pacific-PublishedOk r.published sound),
      (λ name k.
          has_key-add_aliases name (add_pacific r.published) r.aliases
            (has_key-add_pacific name r.published (defined_first name k))),
      λ k.
          has_key-add_aliases "EPSG:3832" (add_pacific r.published) r.aliases
            (has_key-pacific r.published (defined_first "EPSG:3857" k)),
    )
