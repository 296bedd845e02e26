-- ===== src/Config/Include/Depth.antt =====
-- How deep inclusions are nested.
use datacube_ows.Base.{
  ◌≡◌, ◌≢◌, ◌<◌, ◌≤◌, none, some, true, false, List, [], ◌∷◌, ◌++◌, String, string_eq, Result, ok,
  err, ◌>>=◌, contains, ◌==◌, arith, if◌then◌else◌, Option, Option-cases, Result-cases, Bool-cases,
  inl, inr, ℕ, zero, suc,
}
use datacube_ows.Config.Inherit.{
  Value, null, bool, int, float, str, array, obj, Items, nil, cons, Fields, end, field, get_field,
}
use datacube_ows.Config.Include.{
  Sources, ExpandError, no_fuel, Kind, json, python, unsupported, include_kind, included, follow,
  expand_value, expand_fields, expand_items, expand_within, cfg_expand, import_python_obj, bad_path,
  json_object, cwd_of, found, rsplit_dot,
}

abbrev pub NamedAmong : List String → Value → Type 0
NamedAmong names (str p) = contains p names ≡ true
NamedAmong names _ = Unit

-- Every path that is included, at any depth, is one of some names.
abbrev mutual
  pub IncludesAmong : List String → Value → Type 0
  IncludesAmong names (obj fs) = elim (get_field "include" fs) [
    | some path ↦ NamedAmong names path
    | none ↦ FieldsAmong names fs
  ]
  IncludesAmong names (array xs) = ItemsAmong names xs
  IncludesAmong names _ = Unit

  pub FieldsAmong : List String → Fields → Type 0
  FieldsAmong names end = Unit
  FieldsAmong names (field k v fs) = IncludesAmong names v × FieldsAmong names fs

  pub ItemsAmong : List String → Items → Type 0
  ItemsAmong names nil = Unit
  ItemsAmong names (cons x xs) = IncludesAmong names x × ItemsAmong names xs

-- So it is in every file and in every Python object.
abbrev pub ClosedUnder : List String → Sources → Type 0
ClosedUnder names src =
    ((path : String) (v : Value) → src.load_json_obj path ≡ some v → IncludesAmong names v)
    × ((m o : String) (v : Value) → src.get_object m o ≡ some v → IncludesAmong names v)

-- The number of the names that are not included yet.
abbrev pub missing : List String → List String → ℕ
missing [] inclusions = 0
missing (n ∷ names) inclusions =
    let rest = missing names inclusions in if contains n inclusions then rest else suc rest

contains-append-true :
    (j k : String) (ns : List String) → contains j ns ≡ true → contains j (ns ++ k ∷ []) ≡ true
contains-append-true j k [] h = ground arith
contains-append-true j k (n ∷ ns) h = ground (arith, contains-append-true j k ns)

contains-append_self : (k : String) (ns : List String) → contains k (ns ++ k ∷ []) ≡ true
contains-append_self k [] = ground (arith, string_eq.beq_iff k k)
contains-append_self k (n ∷ ns) = ground (arith, contains-append_self k ns)

missing-le : (k : String) (names ns : List String) → missing names (ns ++ k ∷ []) ≤ missing names ns
missing-le k [] ns = omega arith
missing-le k (n ∷ names) ns = ground (arith, missing-le k names ns, contains-append-true n k ns)

-- An inclusion of a new name leaves fewer names.
missing-lt :
    (k : String) (names ns : List String)
    → contains k names ≡ true
    → contains k ns ≡ false
    → missing names (ns ++ k ∷ []) < missing names ns
missing-lt k [] ns h fresh = absurd (ground arith)
missing-lt k (n ∷ names) ns h fresh = elim (Bool-cases (k == n)) [
  | inl same ↦
      ground (arith, string_eq.beq_iff k n, contains-append_self k ns, missing-le k names ns)
  | inr other ↦ ground (
    arith,
    missing-lt k names ns (ground arith) fresh,
    contains-append-true n k ns,
    missing-le k names ns,
  )
]

found-some : (o : Option Value) (v : Value) → found o ≡ some v → o ≡ some v
found-some none v e = cc
found-some (some null) v e = cc
found-some (some (bool b)) v e = e
found-some (some (int z)) v e = e
found-some (some (float t)) v e = e
found-some (some (str t)) v e = e
found-some (some (array xs)) v e = e
found-some (some (obj fs)) v e = e

bad_path-fuel : (kind : Kind) → bad_path kind ≢ no_fuel
unfolding bad_path
bad_path-fuel json e = cc
bad_path-fuel python e = cc
bad_path-fuel (unsupported t) e = cc

included-fuel :
    (src : Sources) (kind : Kind) (raw_path cwd : String)
    → included src kind raw_path cwd ≢ err no_fuel
unfolding included import_python_obj
included-fuel src json raw_path cwd e = ground arith
included-fuel src python raw_path cwd e = elim (Option-cases (rsplit_dot raw_path)) [
  | inl none_there ↦ ground arith
  | inr (parts, split) ↦ ground arith
]
included-fuel src (unsupported t) raw_path cwd e = cc

>>=-ok-err :
    {E A B : Type 0} (m : Result E A) (f : A → B) (raised : E)
    → (m >>= λ a. ok (f a)) ≡ err raised
    → m ≡ err raised
>>=-ok-err (ok a) f raised e = cc
>>=-ok-err (err raised) f other e = cc

pair-fuel :
    {E A B C : Type 0} (m : Result E A) (n : Result E B) (f : A → B → C) (raised : E)
    → m ≢ err raised
    → n ≢ err raised
    → (m >>= λ a. (n >>= λ b. ok (f a b))) ≢ err raised
pair-fuel (ok a) (ok b) f raised p q e = cc
pair-fuel (ok a) (err other) f raised p q e = q (ground arith)
pair-fuel (err other) n f raised p q e = p (ground arith)

module _ (names : List String) (src : Sources) (closed : ClosedUnder names src) where
  found-IncludesAmong :
      (path : String) (v : Value) → found (src.load_json_obj path) ≡ some v → IncludesAmong names v
  found-IncludesAmong path v e = elim (Option-cases (src.load_json_obj path)) [
    | inl failed ↦ absurd (ground arith)
    | inr (w, loaded) ↦ closed.0 path v (found-some (src.load_json_obj path) v e)
  ]

  json_object-IncludesAmong :
      (raw_path cwd : String) (v : Value)
      → json_object src raw_path cwd ≡ some v
      → IncludesAmong names v
  unfolding json_object
  json_object-IncludesAmong raw_path cwd v e =
      elim (Option-cases (found (src.load_json_obj raw_path))) [
        | inl failed ↦
            found-IncludesAmong (src.join (cwd_of src raw_path cwd) raw_path) v (ground arith)
        | inr (w, loaded) ↦ found-IncludesAmong raw_path v (ground arith)
      ]

  included-IncludesAmong :
      (kind : Kind) (raw_path cwd d : String) (v : Value)
      → included src kind raw_path cwd ≡ ok (v, d)
      → IncludesAmong names v
  unfolding included import_python_obj
  included-IncludesAmong json raw_path cwd d v e =
      json_object-IncludesAmong raw_path cwd v (ground arith)
  included-IncludesAmong python raw_path cwd d v e = elim (Option-cases (rsplit_dot raw_path)) [
    | inl none_there ↦ absurd (ground arith)
    | inr ((m, o), parts) ↦ closed.1 m o v (ground arith)
  ]
  included-IncludesAmong (unsupported t) raw_path cwd d v e = cc

  module _ (again : Value → String → List String → Result ExpandError Value) (cwd : String)
      (inclusions : List String)
      (enough : (v : Value) (d k : String)
        → IncludesAmong names v
        → contains k names ≡ true
        → contains k inclusions ≡ false
        → again v d (inclusions ++ k ∷ []) ≢ err no_fuel) where
    follow-fuel :
        (kind : Kind) (path : Value)
        → NamedAmong names path
        → follow src again cwd inclusions kind path ≢ err no_fuel
    unfolding follow bad_path included
    follow-fuel kind (str k) h e = elim (Bool-cases (contains k inclusions)) [
      | inl cyclic ↦ ground arith
      | inr fresh ↦ elim (Result-cases (included src kind k cwd)) [
        | inl ((v, d), loaded) ↦
            enough v d k (included-IncludesAmong kind k cwd d v loaded) h fresh (ground arith)
        | inr (raised, failed) ↦ included-fuel src kind k cwd (ground arith)
      ]
    ]
    follow-fuel kind null h e = bad_path-fuel kind (ground arith)
    follow-fuel kind (bool b) h e = bad_path-fuel kind (ground arith)
    follow-fuel kind (int z) h e = bad_path-fuel kind (ground arith)
    follow-fuel kind (float t) h e = bad_path-fuel kind (ground arith)
    follow-fuel kind (array xs) h e = bad_path-fuel kind (ground arith)
    follow-fuel kind (obj fs) h e = bad_path-fuel kind (ground arith)

    mutual
      unfolding expand_value

      expand_value-fuel :
          (v : Value)
          → IncludesAmong names v
          → expand_value src again cwd inclusions v ≢ err no_fuel
      expand_value-fuel null h e = cc
      expand_value-fuel (bool b) h e = cc
      expand_value-fuel (int z) h e = cc
      expand_value-fuel (float t) h e = cc
      expand_value-fuel (str t) h e = cc
      expand_value-fuel (array xs) h e =
          expand_items-fuel xs h
            (>>=-ok-err (expand_items src again cwd inclusions xs) array no_fuel e)
      expand_value-fuel (obj fs) h e = elim (Option-cases (get_field "include" fs)) [
        | inl absent ↦
            expand_fields-fuel fs (ground arith)
              (>>=-ok-err (expand_fields src again cwd inclusions fs) obj no_fuel (ground arith))
        | inr (path, present) ↦ follow-fuel (include_kind fs) path (ground arith) (ground arith)
      ]

      expand_fields-fuel :
          (fs : Fields)
          → FieldsAmong names fs
          → expand_fields src again cwd inclusions fs ≢ err no_fuel
      expand_fields-fuel end h e = cc
      expand_fields-fuel (field k v fs) (p, h) e =
          pair-fuel (expand_value src again cwd inclusions v)
            (expand_fields src again cwd inclusions fs) (field k) no_fuel (expand_value-fuel v p)
            (expand_fields-fuel fs h) e

      expand_items-fuel :
          (xs : Items)
          → ItemsAmong names xs
          → expand_items src again cwd inclusions xs ≢ err no_fuel
      expand_items-fuel nil h e = cc
      expand_items-fuel (cons x xs) (p, h) e =
          pair-fuel (expand_value src again cwd inclusions x)
            (expand_items src again cwd inclusions xs) cons no_fuel (expand_value-fuel x p)
            (expand_items-fuel xs h) e

expand_within-fuel :
    (names : List String) (src : Sources)
    → ClosedUnder names src
    → (fuel : ℕ) (cfg : Value) (cwd : String) (inclusions : List String) → IncludesAmong names cfg
    → missing names inclusions < fuel
    → expand_within src fuel cfg cwd inclusions ≢ err no_fuel
unfolding expand_within
expand_within-fuel names src closed zero cfg cwd inclusions h enough e = elim enough [ ]
expand_within-fuel names src closed (suc fuel) cfg cwd inclusions h enough e =
    expand_value-fuel names src closed (expand_within src fuel) cwd inclusions
      (λ v d k inner named fresh.
        expand_within-fuel names src closed fuel v d (inclusions ++ k ∷ []) inner
          (omega (arith, missing-lt k names inclusions named fresh)))
      cfg h e

-- Expansion ends: if every path that the configuration, a file or a Python object includes, at any
-- depth, is one of a list of names, then fuel for one level more than the names that are not included
-- yet is enough, however the files include each other, themselves among them.
pub cfg_expand-fuel :
    (names : List String) (src : Sources)
    → ClosedUnder names src
    → (fuel : ℕ) (cfg : Value) (cwd : Option String) (inclusions : List String)
    → IncludesAmong names cfg
    → missing names inclusions < fuel
    → cfg_expand src fuel cfg cwd inclusions ≢ err no_fuel
unfolding cfg_expand
cfg_expand-fuel names src closed fuel cfg none inclusions =
    expand_within-fuel names src closed fuel cfg src.getcwd inclusions
cfg_expand-fuel names src closed fuel cfg (some cwd) inclusions =
    expand_within-fuel names src closed fuel cfg cwd inclusions
