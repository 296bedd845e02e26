-- ===== src/Config/Include/Expanded.antt =====
-- What an expanded configuration is.
use datacube_ows.Base.{
  ◌≡◌, refl, none, some, List, [], ◌∷◌, ◌++◌, String, string_eq, Result, ok, ◌>>=◌, arith, Option,
  Option-cases, Result-cases, inl, inr, ℕ, zero, suc, >>=-eq-ok, ok_injective, subst,
}
use datacube_ows.Config.Inherit.{
  Value, null, bool, int, float, str, array, obj, Items, nil, cons, Fields, end, field, get_field,
}
use datacube_ows.Config.Include.{
  Sources, ExpandError, Kind, include_kind, included, follow, expand_value, expand_fields,
  expand_items, expand_within, cfg_expand,
}

-- No dictionary has the key "include", at any depth.
abbrev mutual
  pub IsExpanded : Value → Type 0
  IsExpanded (obj fs) = (get_field "include" fs ≡ none) × AreExpandedFields fs
  IsExpanded (array xs) = AreExpandedItems xs
  IsExpanded _ = Unit

  pub AreExpandedFields : Fields → Type 0
  AreExpandedFields end = Unit
  AreExpandedFields (field k v fs) = IsExpanded v × AreExpandedFields fs

  pub AreExpandedItems : Items → Type 0
  AreExpandedItems nil = Unit
  AreExpandedItems (cons x xs) = IsExpanded x × AreExpandedItems xs

get_field_absent :
    (k j : String) (v w : Value) (fs hs : Fields)
    → get_field k (field j v fs) ≡ none
    → (get_field k fs ≡ none → get_field k hs ≡ none)
    → get_field k (field j w hs) ≡ none
get_field_absent k j v w fs hs absent rest = ground arith

module _ (src : Sources) (again : Value → String → List String → Result ExpandError Value)
    (cwd : String) (inclusions : List String) where
  get_field-expand_fields :
      (k : String) (fs gs : Fields)
      → expand_fields src again cwd inclusions fs ≡ ok gs
      → get_field k fs ≡ none
      → get_field k gs ≡ none
  unfolding expand_fields
  get_field-expand_fields k end gs e absent = ground arith
  get_field-expand_fields k (field j v fs) gs e absent =
      let (w, _, rest) =
        >>=-eq-ok (expand_value src again cwd inclusions v)
          (λ w. expand_fields src again cwd inclusions fs >>= λ hs. ok (field j w hs)) e in
      let (hs, inner, last) =
        >>=-eq-ok (expand_fields src again cwd inclusions fs) (λ hs. ok (field j w hs)) rest in
      subst (λ g. get_field k g ≡ none) (ok_injective last)
        (get_field_absent k j v w fs hs absent (get_field-expand_fields k fs hs inner))

  mutual
    unfolding expand_value

    expand_value_fixed : (v : Value) → IsExpanded v → expand_value src again cwd inclusions v ≡ ok v
    expand_value_fixed null h = refl
    expand_value_fixed (bool b) h = refl
    expand_value_fixed (int z) h = refl
    expand_value_fixed (float t) h = refl
    expand_value_fixed (str t) h = refl
    expand_value_fixed (array xs) h = rw (expand_items_fixed xs h) refl
    expand_value_fixed (obj fs) (absent, h) = ground (arith, expand_fields_fixed fs h)

    expand_fields_fixed :
        (fs : Fields) → AreExpandedFields fs → expand_fields src again cwd inclusions fs ≡ ok fs
    expand_fields_fixed end h = refl
    expand_fields_fixed (field k v fs) (p, h) =
        rw (expand_value_fixed v p) (rw (expand_fields_fixed fs h) refl)

    expand_items_fixed :
        (xs : Items) → AreExpandedItems xs → expand_items src again cwd inclusions xs ≡ ok xs
    expand_items_fixed nil h = refl
    expand_items_fixed (cons x xs) (p, h) =
        rw (expand_value_fixed x p) (rw (expand_items_fixed xs h) refl)

  module _
      (sound : (v : Value) (d : String) (seen : List String) (r : Value)
        → again v d seen ≡ ok r
        → IsExpanded r) where
    follow-IsExpanded :
        (kind : Kind) (path r : Value)
        → follow src again cwd inclusions kind path ≡ ok r
        → IsExpanded r
    unfolding follow
    follow-IsExpanded kind (str raw_path) r e =
        elim (Result-cases (included src kind raw_path cwd)) [
          | inl ((v, d), loaded) ↦ sound v d (inclusions ++ raw_path ∷ []) r (ground arith)
          | inr failed ↦ absurd (ground arith)
        ]
    follow-IsExpanded kind null r e = cc
    follow-IsExpanded kind (bool b) r e = cc
    follow-IsExpanded kind (int z) r e = cc
    follow-IsExpanded kind (float t) r e = cc
    follow-IsExpanded kind (array xs) r e = cc
    follow-IsExpanded kind (obj fs) r e = cc

    mutual
      unfolding expand_value

      expand_value-IsExpanded :
          (v r : Value) → expand_value src again cwd inclusions v ≡ ok r → IsExpanded r
      expand_value-IsExpanded null r e = subst IsExpanded (ok_injective e) tt
      expand_value-IsExpanded (bool b) r e = subst IsExpanded (ok_injective e) tt
      expand_value-IsExpanded (int z) r e = subst IsExpanded (ok_injective e) tt
      expand_value-IsExpanded (float t) r e = subst IsExpanded (ok_injective e) tt
      expand_value-IsExpanded (str t) r e = subst IsExpanded (ok_injective e) tt
      expand_value-IsExpanded (array xs) r e =
          elim (Result-cases (expand_items src again cwd inclusions xs)) [
            | inl (ys, inner) ↦
                subst IsExpanded {x = array ys} (ground arith)
                  (expand_items-AreExpanded xs ys inner)
            | inr failed ↦ absurd (ground arith)
          ]
      expand_value-IsExpanded (obj fs) r e = elim (Option-cases (get_field "include" fs)) [
        | inl absent ↦ elim (Result-cases (expand_fields src again cwd inclusions fs)) [
          | inl (gs, inner) ↦ subst IsExpanded {x = obj gs} (ground arith) (
            get_field-expand_fields "include" fs gs inner absent,
            expand_fields-AreExpanded fs gs inner,
          )
          | inr failed ↦ absurd (ground arith)
        ]
        | inr (path, present) ↦ follow-IsExpanded (include_kind fs) path r (ground arith)
      ]

      expand_fields-AreExpanded :
          (fs gs : Fields)
          → expand_fields src again cwd inclusions fs ≡ ok gs
          → AreExpandedFields gs
      expand_fields-AreExpanded end gs e = subst AreExpandedFields (ok_injective e) tt
      expand_fields-AreExpanded (field k v fs) gs e =
          let (w, one, rest) =
            >>=-eq-ok (expand_value src again cwd inclusions v)
              (λ w. expand_fields src again cwd inclusions fs >>= λ hs. ok (field k w hs)) e in
          let (hs, inner, last) =
            >>=-eq-ok (expand_fields src again cwd inclusions fs) (λ hs. ok (field k w hs)) rest in
          subst AreExpandedFields (ok_injective last)
            (expand_value-IsExpanded v w one, expand_fields-AreExpanded fs hs inner)

      expand_items-AreExpanded :
          (xs ys : Items) → expand_items src again cwd inclusions xs ≡ ok ys → AreExpandedItems ys
      expand_items-AreExpanded nil ys e = subst AreExpandedItems (ok_injective e) tt
      expand_items-AreExpanded (cons x xs) ys e =
          let (y, one, rest) =
            >>=-eq-ok (expand_value src again cwd inclusions x)
              (λ y. expand_items src again cwd inclusions xs >>= λ zs. ok (cons y zs)) e in
          let (zs, inner, last) =
            >>=-eq-ok (expand_items src again cwd inclusions xs) (λ zs. ok (cons y zs)) rest in
          subst AreExpandedItems (ok_injective last)
            (expand_value-IsExpanded x y one, expand_items-AreExpanded xs zs inner)

expand_within-IsExpanded :
    (src : Sources) (fuel : ℕ) (cfg : Value) (cwd : String) (inclusions : List String) (r : Value)
    → expand_within src fuel cfg cwd inclusions ≡ ok r
    → IsExpanded r
unfolding expand_within
expand_within-IsExpanded src zero cfg cwd inclusions r e = cc
expand_within-IsExpanded src (suc fuel) cfg cwd inclusions r e =
    expand_value-IsExpanded src (expand_within src fuel) cwd inclusions
      (expand_within-IsExpanded src fuel) cfg r e

IsExpanded-again :
    (src : Sources) (r : Value)
    → IsExpanded r
    → IsExpanded r
      × ((n : ℕ) (d : Option String) (seen : List String) → cfg_expand src (suc n) r d seen ≡ ok r)
unfolding cfg_expand expand_within
IsExpanded-again src r h = (
  h,
  λ n d seen. elim d as (λ c. cfg_expand src (suc n) r c seen ≡ ok r) [
    | none ↦ expand_value_fixed src (expand_within src n) src.getcwd seen r h
    | some cwd ↦ expand_value_fixed src (expand_within src n) cwd seen r h
  ],
)

-- A configuration that was expanded has no dictionary with the key "include" left, at any depth, and
-- expanding it once more, from whatever directory and inside whatever inclusions, returns it as it is.
pub cfg_expand-IsExpanded :
    (src : Sources) (fuel : ℕ) (cfg r : Value) (cwd : Option String) (inclusions : List String)
    → cfg_expand src fuel cfg cwd inclusions ≡ ok r
    → IsExpanded r
      × ((n : ℕ) (d : Option String) (seen : List String) → cfg_expand src (suc n) r d seen ≡ ok r)
unfolding cfg_expand
cfg_expand-IsExpanded src fuel cfg r none inclusions e =
    IsExpanded-again src r (expand_within-IsExpanded src fuel cfg src.getcwd inclusions r e)
cfg_expand-IsExpanded src fuel cfg r (some cwd) inclusions e =
    IsExpanded-again src r (expand_within-IsExpanded src fuel cfg cwd inclusions r e)
