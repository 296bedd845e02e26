-- ===== src/Styles/MultiDate/Matches.antt =====
-- Which pixels a rule on several dates matches.
use datacube_ows.Base.{
  ◌≡◌, refl, ap, sym, ◌∙◌, ℕ, zero, suc, ◌<◌, Bool, true, false, ◌&&◌, not, Option, none, some,
  List, [], ◌∷◌, String, map, ok, Dict, ◌==◌, if◌then◌else◌, any, arith, length, replicate,
  >>=-eq-ok, nat_eq, ok_injective,
}
use datacube_ows.Base.Int.{ℤ, int_eq}
use datacube_ows.Styles.Rules.{Mask, zip_with, invert_mask}
use datacube_ows.Styles.Rules.Matches.{any_value-map, any_flag-map, invert_mask-map}
use datacube_ows.Styles.MultiDate.{
  RawMultiRule, MultiRule, is_nil, and_mask, date_values, dates_loop, invert_of, flags_of,
  parse_multi_rule, date_flags, create_multi_mask,
}

-- The value of a pixel at a date passes: no values match all.
abbrev pub value_test : List ℤ → ℤ → Bool
value_test vs x = if is_nil vs then true else any (λ v. x == v) vs

abbrev pub turned : Bool → Bool → Bool
turned invert b = if invert then not b else b

date_values-map : (pixels vs : List ℤ) → date_values pixels vs ≡ some (map (value_test vs) pixels)
unfolding date_values
date_values-map pixels [] = refl
date_values-map pixels (v ∷ vs) = any_value-map pixels (v ∷ vs) refl

-- A test for each date, as far as tests, dates and inversions go; `P` is the type of positions.
abbrev pub all_dates {ℓ κ} :
    {P : Type ℓ} {T : Type κ} → (T → ℤ → Bool) → List (P → ℤ) → List T → List Bool → P → Bool
all_dates test (d ∷ dates) (t ∷ tests) (i ∷ invert) p =
    turned i (test t (d p)) && all_dates test dates tests invert p
all_dates test _ _ _ p = true

module _ {V : Type 0} (make_mask : Dict String V → ℤ → Bool) where
  -- The flags of a pixel at a date pass: no flags match all.
  abbrev pub flag_test : Dict String V × Bool → ℤ → Bool
  flag_test (fs, or_flags) x =
      if is_nil fs
      then true
      else if or_flags
      then any (λ f. make_mask (f ∷ []) x) fs
      else make_mask fs x

  -- The rule matches a position: at each date the pixel there passes, turned round if inverted.
  abbrev pub matches_dates {ℓ} : {P : Type ℓ} → MultiRule V → List (P → ℤ) → P → Bool
  matches_dates r dates p =
      if is_nil r.values
      then all_dates flag_test dates r.flags r.invert p
      else all_dates value_test dates r.values r.invert p

  date_flags-map :
      (pixels : List ℤ) (f : Dict String V × Bool)
      → date_flags make_mask pixels f ≡ some (map (flag_test f) pixels)
  unfolding date_flags
  date_flags-map pixels ([], or_flags) = refl
  date_flags-map pixels (f ∷ fs, true) = any_flag-map make_mask pixels (f ∷ fs) refl
  date_flags-map pixels (f ∷ fs, false) = refl

and_assoc : (a b c : Bool) → ((a && b) && c) ≡ (a && (b && c))
and_assoc a b c = ground arith

module _ {P : Type 0} where
  map-map : (f : ℤ → Bool) (d : P → ℤ) (ps : List P) → map f (map d ps) ≡ map (λ p. f (d p)) ps
  map-map f d [] = refl
  map-map f d (p ∷ ps) = ap (λ r. f (d p) ∷ r) (map-map f d ps)

  and-map :
      (f g : P → Bool) (ps : List P)
      → zip_with (λ a b. a && b) (map f ps) (map g ps) ≡ map (λ p. f p && g p) ps
  and-map f g [] = refl
  and-map f g (p ∷ ps) = ap (λ r. (f p && g p) ∷ r) (and-map f g ps)

  map-ext_of : (f g : P → Bool) (ps : List P) → ((p : P) → f p ≡ g p) → map f ps ≡ map g ps
  map-ext_of f g [] h = refl
  map-ext_of f g (p ∷ ps) h = rw (h p, map-ext_of f g ps h) refl

-- The slices of the dates, over the same positions.
abbrev pub slices_of {ℓ} : {P : Type ℓ} → List (P → ℤ) → List P → List (List ℤ)
slices_of [] ps = []
slices_of (d ∷ dates) ps = map d ps ∷ slices_of dates ps

module _ {P : Type 0} (ps : List P) where
  -- The mask of a date, turned round if its rule is inverted.
  date_step :
      {T : Type 0} (test : T → ℤ → Bool) (d : P → ℤ) (t : T) (i : Bool) (m : Option Mask)
      → m ≡ some (map (test t) (map d ps))
      → invert_mask i m ≡ some (map (λ p. turned i (test t (d p))) ps)
  date_step test d t i m h =
      ap (invert_mask i) h
      ∙ invert_mask-map i (test t) (map d ps)
      ∙ ap some (map-map (λ x. turned i (test t x)) d ps)

  module _ {T : Type 0} (date_mask : List ℤ → T → Option Mask) (test : T → ℤ → Bool)
      (by_test : (pixels : List ℤ) (t : T) → date_mask pixels t ≡ some (map (test t) pixels)) where
    dates_loop-all_dates :
        (dates : List (P → ℤ)) (entries : List T) (invert : List Bool) (f : P → Bool)
        → dates_loop date_mask (slices_of dates ps) entries invert (some (map f ps))
          ≡ some (map (λ p. f p && all_dates test dates entries invert p) ps)
    unfolding dates_loop
    dates_loop-all_dates [] entries invert f = ap some (map-ext_of f _ ps (λ p. ground arith))
    dates_loop-all_dates (d ∷ dates) [] invert f = ap some (map-ext_of f _ ps (λ p. ground arith))
    dates_loop-all_dates (d ∷ dates) (t ∷ entries) [] f =
        ap some (map-ext_of f _ ps (λ p. ground arith))
    dates_loop-all_dates (d ∷ dates) (t ∷ entries) (i ∷ invert) f =
        let g : P → Bool = λ p. turned i (test t (d p)) in
        ap
          (λ m.
            dates_loop date_mask (slices_of dates ps) entries invert (and_mask (some (map f ps)) m))
          (date_step test d t i (date_mask (map d ps) t) (by_test (map d ps) t))
        ∙ ap (dates_loop date_mask (slices_of dates ps) entries invert) (ap some (and-map f g ps))
        ∙ dates_loop-all_dates dates entries invert (λ p. f p && g p)
        ∙ ap some
            (map-ext_of _ _ ps λ p. and_assoc (f p) (g p) (all_dates test dates entries invert p))

    dates_loop-first :
        (d : P → ℤ) (dates : List (P → ℤ)) (t : T) (entries : List T) (i : Bool)
        (invert : List Bool)
        → dates_loop date_mask (slices_of (d ∷ dates) ps) (t ∷ entries) (i ∷ invert) none
          ≡ some (map (all_dates test (d ∷ dates) (t ∷ entries) (i ∷ invert)) ps)
    unfolding dates_loop
    dates_loop-first d dates t entries i invert =
        let g : P → Bool = λ p. turned i (test t (d p)) in
        ap (dates_loop date_mask (slices_of dates ps) entries invert)
          (date_step test d t i (date_mask (map d ps) t) (by_test (map d ps) t))
        ∙ dates_loop-all_dates dates entries invert g

is_nil-length : {A : Type 0} (xs : List A) → 0 < length xs → is_nil xs ≡ false
is_nil-length [] h = elim h [ ]
is_nil-length (x ∷ xs) h = refl

length-replicate : {A : Type 0} (n : ℕ) (a : A) → length (replicate n a) ≡ n
length-replicate zero a = refl
length-replicate (suc n) a = ap suc (length-replicate n a)

length-invert_of :
    (max_count : ℕ) (given : Option (List Bool)) (invert : List Bool)
    → invert_of max_count given ≡ ok invert
    → length invert ≡ max_count
unfolding invert_of
length-invert_of max_count none invert e =
    ap length (sym (ok_injective e)) ∙ length-replicate max_count false
length-invert_of max_count (some given) invert e = ground arith

-- A rule that the constructor accepts has something to match, and an inversion for each date.
parse_multi_rule-nonempty :
    {V : Type 0} (max_count : ℕ) (cfg : RawMultiRule V) (r : MultiRule V)
    → parse_multi_rule max_count cfg ≡ ok r
    → (length r.invert ≡ max_count) × ((is_nil r.flags && is_nil r.values) ≡ false)
unfolding parse_multi_rule
parse_multi_rule-nonempty max_count cfg r e =
    let (invert, counted, e1) = >>=-eq-ok (invert_of max_count cfg.invert) _ e in
    let (flags, _, e2) = >>=-eq-ok (flags_of max_count cfg.flags) _ e1 in
    let same = length-invert_of max_count cfg.invert invert counted in
    (ground (arith, same), ground arith)

module _ {V P : Type 0} (make_mask : Dict String V → ℤ → Bool) (ps : List P) where
  mask_of_rule :
      (invert : List Bool) (flags : List (Dict String V × Bool)) (values : List (List ℤ))
      (dates : List (P → ℤ))
      → is_nil dates ≡ false
      → is_nil invert ≡ false
      → (is_nil flags && is_nil values) ≡ false
      → create_multi_mask make_mask
          (record { invert = invert; flags = flags; values = values })
          (slices_of dates ps)
        ≡ some (
            map
              (matches_dates make_mask
                (record { invert = invert; flags = flags; values = values })
                dates)
              ps)
  unfolding create_multi_mask
  mask_of_rule invert flags values [] h k l = absurd (ground arith)
  mask_of_rule [] flags values (d ∷ dates) h k l = absurd (ground arith)
  mask_of_rule (i ∷ invert) [] [] (d ∷ dates) h k l = absurd (ground arith)
  mask_of_rule (i ∷ invert) (f ∷ flags) [] (d ∷ dates) h k l =
      dates_loop-first ps (date_flags make_mask) (flag_test make_mask) (date_flags-map make_mask) d
        dates f flags i invert
  mask_of_rule (i ∷ invert) flags (v ∷ values) (d ∷ dates) h k l =
      dates_loop-first ps date_values value_test date_values-map d dates v values i invert

  -- A rule on several dates that the constructor accepts masks every image with as many dates, one at
  -- least, with one test per position: at each date the pixel there has one of that date's values, or
  -- passes that date's flags, turned round if that date is inverted. Dates without an entry are not looked
  -- at, and an empty entry matches every pixel.
  pub create_multi_mask-matches :
      (max_count : ℕ) (cfg : RawMultiRule V) (r : MultiRule V) (dates : List (P → ℤ))
      → parse_multi_rule max_count cfg ≡ ok r
      → length dates ≡ max_count
      → 0 < max_count
      → create_multi_mask make_mask r (slices_of dates ps)
        ≡ some (map (matches_dates make_mask r dates) ps)
  create_multi_mask-matches max_count cfg r dates parsed same positive =
      let law = parse_multi_rule-nonempty max_count cfg r parsed in
      mask_of_rule r.invert r.flags r.values dates
        (is_nil-length dates (omega (arith, same, positive)))
        (is_nil-length r.invert (omega (arith, law.0, positive))) law.1
