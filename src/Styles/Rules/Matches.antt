-- ===== src/Styles/Rules/Matches.antt =====
-- Which pixels a mask rule matches.
use datacube_ows.Base.{
  ◌≡◌, refl, ap, ◌∙◌, Bool, true, false, ◌||◌, not, Option, none, some, List, [], ◌∷◌, String, map,
  ok, Dict, ◌==◌, if◌then◌else◌, any, arith,
}
use datacube_ows.Base.Int.{ℤ, int_eq}
use datacube_ows.Styles.Rules.{
  RawMaskRule, MaskRule, or_mask, is_empty, or_empty, mask_values, mask_any_flag, invert_mask,
  create_mask, parse_rule_spec,
}

-- Two masks of one image.
or_mask-map :
    (f g : ℤ → Bool) (pixels : List ℤ)
    → or_mask (some (map f pixels)) (map g pixels) ≡ some (map (λ x. f x || g x) pixels)
or_mask-map f g [] = refl
or_mask-map f g (x ∷ xs) = ground (arith, or_mask-map f g xs)

pub map-ext :
    (f g : ℤ → Bool) (pixels : List ℤ) → ((x : ℤ) → f x ≡ g x) → map f pixels ≡ map g pixels
map-ext f g [] h = refl
map-ext f g (x ∷ xs) h = rw (h x, map-ext f g xs h)

map-map-not :
    (f : ℤ → Bool) (pixels : List ℤ) → map not (map f pixels) ≡ map (λ x. not (f x)) pixels
map-map-not f [] = refl
map-map-not f (x ∷ xs) = rw (map-map-not f xs)

or_assoc : (a b c : Bool) → ((a || b) || c) ≡ (a || (b || c))
or_assoc a b c = ground arith

mask_values-map :
    (pixels vs : List ℤ) (f : ℤ → Bool)
    → mask_values pixels vs (some (map f pixels))
      ≡ some (map (λ x. f x || any (λ v. x == v) vs) pixels)
unfolding mask_values
mask_values-map pixels [] f = ap some (map-ext f (λ x. f x || false) pixels (λ x. ground arith))
mask_values-map pixels (v ∷ vs) f =
    ap (λ m. mask_values pixels vs m) (or_mask-map f (λ x. x == v) pixels)
    ∙ mask_values-map pixels vs (λ x. f x || x == v)
    ∙ ap some (map-ext _ _ pixels (λ x. or_assoc (f x) (x == v) (any (λ w. x == w) vs)))

pub any_value-map :
    (pixels vs : List ℤ)
    → is_empty (some vs) ≡ false
    → mask_values pixels vs none ≡ some (map (λ x. any (λ v. x == v) vs) pixels)
unfolding mask_values
any_value-map pixels [] h = ground arith
any_value-map pixels (v ∷ vs) h = mask_values-map pixels vs (λ x. x == v)

pub invert_mask-map :
    (b : Bool) (f : ℤ → Bool) (pixels : List ℤ)
    → invert_mask b (some (map f pixels)) ≡ some (map (λ x. if b then not (f x) else f x) pixels)
unfolding invert_mask
invert_mask-map true f pixels = ap some (map-map-not f pixels)
invert_mask-map false f pixels = refl

module _ {V : Type 0} (make_mask : Dict String V → ℤ → Bool) where
  mask_any_flag-map :
      (pixels : List ℤ) (fs : Dict String V) (f : ℤ → Bool)
      → mask_any_flag make_mask pixels fs (some (map f pixels))
        ≡ some (map (λ x. f x || any (λ g. make_mask (g ∷ []) x) fs) pixels)
  unfolding mask_any_flag
  mask_any_flag-map pixels [] f = ap some (map-ext f (λ x. f x || false) pixels (λ x. ground arith))
  mask_any_flag-map pixels (g ∷ gs) f =
      ap (λ m. mask_any_flag make_mask pixels gs m) (or_mask-map f (make_mask (g ∷ [])) pixels)
      ∙ mask_any_flag-map pixels gs (λ x. f x || make_mask (g ∷ []) x)
      ∙ ap some (
          map-ext _ _ pixels
            (λ x. or_assoc (f x) (make_mask (g ∷ []) x) (any (λ h. make_mask (h ∷ []) x) gs)))

  -- The test of one pixel: one of the values, or the flags, and the opposite if inverted.
  abbrev pub matches : MaskRule V → ℤ → Bool
  matches r x =
      let flags = or_empty r.flags in
      let flagged =
        if r.or_flags then any (λ f. make_mask (f ∷ []) x) flags else make_mask flags x in
      let found = if is_empty r.values then flagged else any (λ v. x == v) (or_empty r.values) in
      if r.invert then not found else found

  pub any_flag-map :
      (pixels : List ℤ) (fs : Dict String V)
      → is_empty (some fs) ≡ false
      → mask_any_flag make_mask pixels fs none
        ≡ some (map (λ x. any (λ g. make_mask (g ∷ []) x) fs) pixels)
  unfolding mask_any_flag
  any_flag-map pixels [] h = ground arith
  any_flag-map pixels (f ∷ fs) h = mask_any_flag-map pixels fs (make_mask (f ∷ []))

  -- What the constructor accepts: something to match, by flags or by values but not by both.
  parse_rule_spec-nonempty :
      (cfg : RawMaskRule V) (r : MaskRule V)
      → parse_rule_spec cfg ≡ ok r
      → is_empty r.values ≡ not (is_empty r.flags)
  unfolding parse_rule_spec
  parse_rule_spec-nonempty cfg r h = ground arith

  flags_mask :
      (flags : Option (Dict String V)) (or_flags : Bool) (pixels : List ℤ)
      → is_empty flags ≡ false
      → (if or_flags
          then mask_any_flag make_mask pixels (or_empty flags) none
          else some (map (make_mask (or_empty flags)) pixels))
        ≡ some (
            map
              (λ x.
                if or_flags
                then any (λ f. make_mask (f ∷ []) x) (or_empty flags)
                else make_mask (or_empty flags) x)
              pixels)
  flags_mask flags false pixels h = refl
  flags_mask none true pixels h = ground arith
  flags_mask (some fs) true pixels h = any_flag-map pixels fs h

  abbrev rule_of : Option (Dict String V) → Bool → Option (List ℤ) → Bool → MaskRule V
  rule_of fs o vs i = record { flags = fs; or_flags = o; values = vs; invert = i }

  mask_of_rule :
      (fs : Option (Dict String V)) (o : Bool) (vs : Option (List ℤ)) (i : Bool) (pixels : List ℤ)
      → is_empty vs ≡ not (is_empty fs)
      → create_mask make_mask (rule_of fs o vs i) pixels
        ≡ some (map (matches (rule_of fs o vs i)) pixels)
  unfolding create_mask
  mask_of_rule fs o none i pixels h =
      ap (invert_mask i) (flags_mask fs o pixels (ground arith)) ∙ invert_mask-map i _ pixels
  mask_of_rule fs o (some []) i pixels h =
      ap (invert_mask i) (flags_mask fs o pixels (ground arith)) ∙ invert_mask-map i _ pixels
  mask_of_rule fs o (some (v ∷ vs)) i pixels h =
      ap (invert_mask i) (any_value-map pixels (v ∷ vs) refl) ∙ invert_mask-map i _ pixels

  -- A rule that the constructor accepts masks every image, with one test per pixel: the pixel has
  -- one of the values, or passes the flags (one of them in an "or" rule, all together otherwise),
  -- turned round if the rule is inverted.
  pub create_mask-matches :
      (cfg : RawMaskRule V) (r : MaskRule V) (pixels : List ℤ)
      → parse_rule_spec cfg ≡ ok r
      → create_mask make_mask r pixels ≡ some (map (matches r) pixels)
  create_mask-matches cfg r pixels h =
      mask_of_rule r.flags r.or_flags r.values r.invert pixels (parse_rule_spec-nonempty cfg r h)
