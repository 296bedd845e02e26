-- ===== src/Config/Crs/Boxes.antt =====
-- The bounding boxes of a layer under the names of all published coordinate systems.
use datacube_ows.Base.{
  ◌≡◌, ◌≢◌, ◌⊎◌, true, sym, inl, inr, refl, Bool, false, not, ◌&&◌, Option, none, some, List, [],
  ◌∷◌, String, ok, >>=-eq-ok, ok_injective, Dict, lookup, has_key, insert, lookup-insert, ◌==◌,
  string_eq, arith, Bool-cases, Option-cases, subst, or_raise,
}
use datacube_ows.Config.Crs.{
  CrsDef, RawCrs, alias, defined, Reading, CrsTable, def_of, check_axes, read_crs, read_all,
  default_geographic_crs, pacific, add_pacific, alias_def, add_aliases, nothing_read, parse_crses,
  key_error, real_crs, collect, alias_bboxes,
}
use datacube_ows.Config.Crs.Published.{PublishedOk, parse_crses-PublishedOk}

-- No key twice.
abbrev Distinct : {A : Type 0} → Dict String A → Type 0
Distinct [] = Unit
Distinct ((k, v) ∷ d) = (has_key k d ≡ false) × Distinct d

Distinct-insert :
    {A : Type 0} (k : String) (v : A) (d : Dict String A) → Distinct d → Distinct (insert k v d)
Distinct-insert k v [] h = (refl, tt)
Distinct-insert k v ((j, w) ∷ d) (new, h) = elim (Bool-cases (k == j)) [
  | inl same ↦ subst Distinct {x = (j, v) ∷ d} (ground arith) (new, h)
  | inr other ↦ subst Distinct {x = (j, w) ∷ insert k v d} (ground arith) (
    ground (arith, lookup-insert j k v d, string_eq.beq_iff j k, string_eq.beq_iff k j, new, other),
    Distinct-insert k v d h,
  )
]

read_crs-Distinct :
    (r : Reading) (name : String) (raw : RawCrs) (next : Reading)
    → Distinct r.published
    → read_crs r name raw ≡ ok next
    → Distinct next.published
unfolding read_crs
read_crs-Distinct r name (alias target) next once h =
    subst (λ q. Distinct q.published) (ok_injective h) once
read_crs-Distinct r name (defined raw) next once h =
    let (geographic, _, h1) = >>=-eq-ok (or_raise raw.geographic (key_error "geographic")) _ h in
    let def = def_of name raw geographic in
    let (_, _, h2) = >>=-eq-ok (check_axes name def) _ h1 in
    subst (λ q. Distinct q.published) (ok_injective h2) (Distinct-insert name def r.published once)

read_all-Distinct :
    (r : Reading) (raws : Dict String RawCrs) (last : Reading)
    → Distinct r.published
    → read_all r raws ≡ ok last
    → Distinct last.published
unfolding read_all
read_all-Distinct r [] last once h = subst (λ q. Distinct q.published) (ok_injective h) once
read_all-Distinct r ((name, raw) ∷ raws) last once h =
    let (next, read, h1) = >>=-eq-ok (read_crs r name raw) _ h in
    read_all-Distinct next raws last (read_crs-Distinct r name raw next once read) h1

add_pacific-Distinct :
    (published : Dict String CrsDef) → Distinct published → Distinct (add_pacific published)
unfolding add_pacific
add_pacific-Distinct published once =
    elim (Bool-cases (has_key "EPSG:3857" published && not (has_key "EPSG:3832" published))) [
      | inr complete ↦ subst Distinct {x = published} (ground arith) once
      | inl lacking ↦
          subst Distinct {x = insert "EPSG:3832" pacific published} (ground arith)
            (Distinct-insert "EPSG:3832" pacific published once)
    ]

add_aliases-Distinct :
    (published : Dict String CrsDef) (aliases : List (String × String))
    → Distinct published
    → Distinct (add_aliases published aliases)
unfolding add_aliases
add_aliases-Distinct published [] once = once
add_aliases-Distinct published ((name, target) ∷ aliases) once =
    elim (Option-cases (lookup target published)) [
      | inl unknown ↦
          subst Distinct {x = add_aliases published aliases} (ground arith)
            (add_aliases-Distinct published aliases once)
      | inr (def, known) ↦
          let next = insert name (alias_def name target def) published in
          subst Distinct {x = add_aliases next aliases} (ground arith) (
            add_aliases-Distinct next aliases
              (Distinct-insert name (alias_def name target def) published once))
    ]

parse_crses-Distinct :
    (wcs : Bool) (raws : Dict String RawCrs) (t : CrsTable)
    → parse_crses wcs raws ≡ ok t
    → Distinct t.crses
unfolding parse_crses
parse_crses-Distinct wcs raws t h =
    let (r, read, h1) = >>=-eq-ok (read_all nothing_read raws) _ h in
    let (default, _, h2) = >>=-eq-ok (default_geographic_crs wcs r.geographic) _ h1 in
    subst (λ q. Distinct q.crses) (ok_injective h2)
      (add_aliases-Distinct (add_pacific r.published) r.aliases
        (add_pacific-Distinct r.published (read_all-Distinct nothing_read raws r tt read)))

module _ {B : Type 0} (entry : String → CrsDef → Option B) where
  abbrev or_before : Option B → Option B → Option B
  or_before before none = before
  or_before before (some b) = some b

  -- The entry of a published coordinate system.
  abbrev pub entry_of : String → Option CrsDef → Option B
  entry_of name none = none
  entry_of name (some def) = entry name def

  collect-lookup :
      (out : Dict String B) (defs : Dict String CrsDef) (name : String)
      → Distinct defs
      → lookup name (collect entry out defs)
        ≡ or_before (lookup name out) (entry_of name (lookup name defs))
  unfolding collect
  collect-lookup out [] name once = refl
  collect-lookup out ((other, def) ∷ defs) name (new, once) =
      elim (Option-cases (entry other def)) [
        | inl absent ↦
            ground
              (arith, string_eq.beq_iff name other, new, absent, collect-lookup out defs name once)
        | inr (b, there) ↦ ground (
          arith,
          string_eq.beq_iff name other,
          new,
          there,
          lookup-insert name other b out,
          collect-lookup (insert other b out) defs name once,
        )
      ]

  -- Over the coordinate systems of a configuration, each has its own entry.
  pub collect-parse_crses :
      (wcs : Bool) (raws : Dict String RawCrs) (t : CrsTable) (name : String)
      → parse_crses wcs raws ≡ ok t
      → lookup name (collect entry [] t.crses) ≡ entry_of name (lookup name t.crses)
  collect-parse_crses wcs raws t name h =
      ground (arith, collect-lookup [] t.crses name (parse_crses-Distinct wcs raws t h))

module _ {B : Type 0} (bboxes : Dict String B) where
  -- The box for a name: none where the name is not published; its own where it is no alias, or one of
  -- the empty name; and that of the published coordinate system that it is an alias of.
  abbrev pub BoxFor : Dict String CrsDef → String → Option B → Type 0
  BoxFor crses name box =
      ((lookup name crses ≡ none) × (box ≡ none))
      ⊎ (((def : CrsDef) × (lookup name crses ≡ some def)
            × ((def.alias_of ≡ none) ⊎ (def.alias_of ≡ some ""))
            × (box ≡ lookup name bboxes))
          ⊎ ((def : CrsDef) × (target : String) × (lookup name crses ≡ some def)
              × (def.alias_of ≡ some target)
              × (target ≢ "")
              × (has_key target crses ≡ true)
              × (box ≡ lookup target bboxes)))

  abbrev own_box : String → CrsDef → Option B
  own_box name def = lookup (real_crs name def.alias_of) bboxes

  entry_of-BoxFor :
      (crses : Dict String CrsDef) (name : String)
      → PublishedOk crses
      → BoxFor crses name (entry_of own_box name (lookup name crses))
  entry_of-BoxFor crses name sound = elim (Option-cases (lookup name crses)) [
    | inl absent ↦ inl (absent, ground arith)
    | inr (def, published) ↦ elim (Option-cases def.alias_of) [
      | inl plain ↦ inr (inl (def, published, inl plain, ground arith))
      | inr (target, aliased) ↦ elim (Bool-cases (target == "")) [
        | inl empty ↦
            inr (
              inl (def, published, inr (ground (arith, string_eq.beq_iff target "")), ground arith))
        | inr filled ↦
            let apart : target ≢ "" = λ e. ground (arith, string_eq.beq_iff target "", filled, e) in
            inr (
              inr (
                def,
                target,
                published,
                aliased,
                apart,
                (sound name def published).1 target aliased,
                ground arith,
              ))
      ]
    ]
  ]

  -- With the coordinate systems of a configuration, each one that is published has its own box, if the
  -- layer has one there, or, as an alias, the box of the published one that it is an alias of; and no
  -- other name has a box.
  pub alias_bboxes-BoxFor :
      (wcs : Bool) (raws : Dict String RawCrs) (t : CrsTable) (name : String)
      → parse_crses wcs raws ≡ ok t
      → BoxFor t.crses name (lookup name (alias_bboxes t.crses bboxes))
  unfolding alias_bboxes
  alias_bboxes-BoxFor wcs raws t name h =
      subst (BoxFor t.crses name) (sym (collect-parse_crses own_box wcs raws t name h))
        (entry_of-BoxFor t.crses name (parse_crses-PublishedOk wcs raws t h).0)
