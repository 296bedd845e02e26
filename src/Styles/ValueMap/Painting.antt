-- ===== src/Styles/ValueMap/Painting.antt =====
-- Which rule colours a pixel.
use mathlib.Core.List.{reverse-cons}
use datacube_ows.Base.{
  get_elem?-replicate, Result-cases, lookup-All, get_elem?-some, ℕ, zero, suc, ◌<◌, ◌≡◌, refl, sym,
  ap, ◌∙◌, Bool, false, Option, none, some, List, [], ◌∷◌, ◌++◌, String, string_eq, map, reverse,
  replicate, any, ok, err, >>=-eq-ok, Dict, lookup, if◌then◌else◌, All, get_elem?, length,
  Bool-cases, arith, inl, inr,
}
use datacube_ows.Base.Int.{ℤ}
use datacube_ows.Base.Float.{Floats}
use datacube_ows.Config.Bands.{band}
use datacube_ows.Styles.Rules.{RawMaskRule, zip_with, parse_rule_spec}
use datacube_ows.Styles.Rules.Matches.{matches, create_mask-matches}
use datacube_ows.Styles.ValueMap.{
  Rgba, transparent, paint, ValueMapRule, colour_of, paint_rules, band_data, paint_bands,
  apply_value_map,
}

-- Nothing is painted under a mask that is false everywhere.
any-false :
    (f : ℤ → Bool) (xs : List ℤ) (i : ℕ) (x : ℤ)
    → any (λ b. b) (map f xs) ≡ false
    → get_elem? xs i ≡ some x
    → f x ≡ false
any-false f [] i x h e = ground arith
any-false f (y ∷ ys) zero x h e = ground arith
any-false f (y ∷ ys) (suc i) x h e = any-false f ys i x (ground arith) e

zip-at :
    (f : ℤ → Bool) (c : Rgba) (xs : List ℤ) (img : List Rgba) (i : ℕ) (x : ℤ) (p : Rgba)
    → get_elem? xs i ≡ some x
    → get_elem? img i ≡ some p
    → get_elem? (zip_with (λ b q. if b then c else q) (map f xs) img) i
      ≡ some (if f x then c else p)
zip-at f c [] img i x p e h = ground arith
zip-at f c (y ∷ ys) [] i x p e h = ground arith
zip-at f c (y ∷ ys) (q ∷ img) zero x p e h = ground arith
zip-at f c (y ∷ ys) (q ∷ img) (suc i) x p e h = zip-at f c ys img i x p e h

paint-at :
    (f : ℤ → Bool) (c : Rgba) (xs : List ℤ) (img : List Rgba) (i : ℕ) (x : ℤ) (p : Rgba)
    → get_elem? xs i ≡ some x
    → get_elem? img i ≡ some p
    → get_elem? (paint (some (map f xs)) c img) i ≡ some (if f x then c else p)
unfolding paint
paint-at f c xs img i x p e h = elim (Bool-cases (any (λ b. b) (map f xs))) [
  | inl some_true ↦ rw (some_true, zip-at f c xs img i x p e h)
  | inr all_false ↦ rw (all_false, h, any-false f xs i x all_false e)
]

band_data-at :
    (idx : Dict String String) (n : ℕ) (pixels : Dict String (List ℤ)) (b : String) (xs : List ℤ)
    (i : ℕ)
    → All (λ e. length e.1 ≡ n) pixels
    → i < n
    → band_data idx pixels b ≡ ok xs
    → (x : ℤ) × (get_elem? xs i ≡ some x)
band_data-at idx n pixels b xs i sized lt h = elim (Result-cases (band idx b)) [
  | inl (c, found) ↦
      let stored : lookup c pixels ≡ some xs = ground arith in
      let wide = lookup-All (λ ys. length ys ≡ n) c xs pixels sized stored in
      get_elem?-some i xs (omega arith)
  | inr (e, failed) ↦ absurd (ground arith)
]

abbrev pub or_else : Option Rgba → Rgba → Rgba
or_else none p = p
or_else (some c) p = c

or_else-later :
    (later here : Option Rgba) (p : Rgba)
    → or_else (elim later as (λ _. Option Rgba) [ some c ↦ some c | none ↦ here ]) p
      ≡ or_else later (or_else here p)
or_else-later none here p = refl
or_else-later (some c) here p = refl

module _ (fl : Floats) {V : Type 0} (make_mask : Dict String V → ℤ → Bool) where
  -- The constructor of its mask rule accepted the rule.
  abbrev pub Accepted : ValueMapRule fl V → Type 0
  Accepted r = (cfg : RawMaskRule V) × (parse_rule_spec cfg ≡ ok r.rule)

  -- The colour of the first rule that matches a value.
  abbrev pub first_match : List (ValueMapRule fl V) → ℤ → Option Rgba
  first_match [] x = none
  first_match (r ∷ rs) x =
      if matches make_mask r.rule x then some (colour_of fl r) else first_match rs x

  paint_rules-append :
      (rs ss : List (ValueMapRule fl V)) (xs : List ℤ) (img : List Rgba)
      → paint_rules fl make_mask (rs ++ ss) xs img
        ≡ paint_rules fl make_mask ss xs (paint_rules fl make_mask rs xs img)
  unfolding paint_rules
  paint_rules-append [] ss xs img = refl
  paint_rules-append (r ∷ rs) ss xs img = paint_rules-append rs ss xs _

  paint_rules-at :
      (rs : List (ValueMapRule fl V)) (xs : List ℤ) (img : List Rgba) (i : ℕ) (x : ℤ) (p : Rgba)
      → All Accepted rs
      → get_elem? xs i ≡ some x
      → get_elem? img i ≡ some p
      → get_elem? (paint_rules fl make_mask (reverse rs) xs img) i
        ≡ some (or_else (first_match rs x) p)
  unfolding paint_rules
  paint_rules-at [] xs img i x p a e h = h
  paint_rules-at (r ∷ rs) xs img i x p ((cfg, a), more) e h =
      let before = paint_rules fl make_mask (reverse rs) xs img in
      let last =
        ap (λ l. paint_rules fl make_mask l xs img) (reverse-cons r rs)
        ∙ paint_rules-append (reverse rs) (r ∷ []) xs img in
      let mask = create_mask-matches make_mask cfg r.rule xs a in
      let painted =
        paint-at (matches make_mask r.rule) (colour_of fl r) xs before i x
          (or_else (first_match rs x) p) e (paint_rules-at rs xs img i x p more e h) in
      ap (λ l. get_elem? l i) last
      ∙ ap (λ m. get_elem? (paint m (colour_of fl r) before) i) mask
      ∙ painted
      ∙ ground arith

  -- The colour of a pixel by the rules alone: the first match in the last band that has one.
  abbrev pub pixel_at : Dict String String → Dict String (List ℤ) → String → ℕ → Option ℤ
  pixel_at idx pixels b i = elim (band_data idx pixels b) [ err _ ↦ none | ok xs ↦ get_elem? xs i ]

  abbrev pub match_at : List (ValueMapRule fl V) → Option ℤ → Option Rgba
  match_at rules none = none
  match_at rules (some x) = first_match rules x

  abbrev pub last_match :
      Dict String String
      → Dict String (List ℤ)
      → Dict String (List (ValueMapRule fl V))
      → ℕ
      → Option Rgba
  last_match idx pixels [] i = none
  last_match idx pixels ((b, rules) ∷ value_map) i = elim (last_match idx pixels value_map i) [
    | some c ↦ some c
    | none ↦ match_at rules (pixel_at idx pixels b i)
  ]

  paint_bands-at :
      (idx : Dict String String) (n : ℕ) (pixels : Dict String (List ℤ))
      (value_map : Dict String (List (ValueMapRule fl V))) (img out : List Rgba) (i : ℕ) (p : Rgba)
      → All (λ e. length e.1 ≡ n) pixels
      → All (λ e. All Accepted e.1) value_map
      → i < n
      → get_elem? img i ≡ some p
      → paint_bands fl make_mask idx pixels value_map img ≡ ok out
      → get_elem? out i ≡ some (or_else (last_match idx pixels value_map i) p)
  unfolding paint_bands
  paint_bands-at idx n pixels [] img out i p sized a lt at h = ground arith
  paint_bands-at idx n pixels ((b, rules) ∷ value_map) img out i p sized (a, more) lt at h =
      let (xs, data_of, rest) = >>=-eq-ok (band_data idx pixels b) _ h in
      let (x, e) = band_data-at idx n pixels b xs i sized lt data_of in
      let q = or_else (first_match rules x) p in
      let painted = paint_rules-at rules xs img i x p a e at in
      let later =
        paint_bands-at idx n pixels value_map (paint_rules fl make_mask (reverse rules) xs img) out
          i q sized more lt painted rest in
      let found : pixel_at idx pixels b i ≡ some x =
        ap (λ r. elim r as (λ _. Option ℤ) [ err _ ↦ none | ok ys ↦ get_elem? ys i ]) data_of ∙ e in
      later
      ∙ ap some (sym (or_else-later (last_match idx pixels value_map i) (first_match rules x) p))
      ∙ ap
          (λ v. some (
            or_else
              (elim (last_match idx pixels value_map i) as (λ _. Option Rgba) [
                | some c ↦ some c
                | none ↦ match_at rules v
              ])
              p))
          (sym found)

  -- With rules that the constructor accepts and data of n pixels in every band, an image is painted
  -- pixel by pixel: each has the colour of the first rule that matches its value, in the last band
  -- of the value map that has such a rule, and is transparent where no rule matches.
  pub apply_value_map-last_match :
      (idx : Dict String String) (n : ℕ) (pixels : Dict String (List ℤ))
      (value_map : Dict String (List (ValueMapRule fl V))) (out : List Rgba) (i : ℕ)
      → All (λ e. length e.1 ≡ n) pixels
      → All (λ e. All Accepted e.1) value_map
      → i < n
      → apply_value_map fl make_mask idx n pixels value_map ≡ ok out
      → get_elem? out i ≡ some (or_else (last_match idx pixels value_map i) transparent)
  unfolding apply_value_map
  apply_value_map-last_match idx n pixels value_map out i sized a lt h =
      paint_bands-at idx n pixels value_map (replicate n transparent) out i transparent sized a lt
        (get_elem?-replicate i n transparent lt) h
