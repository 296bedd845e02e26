-- ===== src/Styles/Tests.antt =====
-- Runs of mask rules and value maps.
use datacube_ows.Base.{
  ℕ, ◌%◌, ◌≡◌, refl, Bool, true, false, none, some, List, [], ◌∷◌, String, map, ok, Dict, ◌==◌,
  nat_eq, get_elem?, arith,
}
use datacube_ows.Base.Int.{ℤ, pos, pos_part, ◌+ℤ◌, ◌*ℤ◌}
use datacube_ows.Base.Float.{thousandths, quot}
use datacube_ows.Config.Bands.{band}
use datacube_ows.Styles.MultiDate.{RawMultiRule, MultiRule, parse_multi_rule, create_multi_mask}
use datacube_ows.Styles.MultiDate.Matches.{slices_of, create_multi_mask-matches}
use datacube_ows.Styles.Rules.{RawMaskRule, RawValues, MaskRule, create_mask, parse_rule_spec}
use datacube_ows.Styles.Rules.Matches.{matches, create_mask-matches}
use datacube_ows.Styles.ValueMap.{
  Rgba, transparent, ValueMapRule, apply_value_map, convert_to_uint8,
}
use datacube_ows.Styles.ValueMap.Painting.{or_else, last_match, apply_value_map-last_match}

-- A flag asks for a remainder by two; all flags of a dictionary must hold.
abbrev parity : Dict String ℕ → ℤ → Bool
parity [] x = true
parity ((_, r) ∷ fs) x = elim (pos_part x % 2 == r) [ false ↦ false | true ↦ parity fs x ]

abbrev odd_rule : RawMaskRule ℕ
odd_rule = record {
  invert = false;
  flags = some (record { or_group = none; and_group = none; others = ("odd", 1) ∷ [] });
  values = none;
}

abbrev odd_parsed : MaskRule ℕ
odd_parsed = record {
  flags = some (("odd", 1) ∷ []);
  or_flags = false;
  values = none;
  invert = false;
}

abbrev not_five : RawMaskRule ℕ
not_five = record { invert = true; flags = none; values = some (RawValues.one (pos 5)) }

abbrev not_five_parsed : MaskRule ℕ
not_five_parsed = record {
  flags = none;
  or_flags = false;
  values = some (pos 5 ∷ []);
  invert = true;
}

odd_run : parse_rule_spec odd_rule ≡ ok odd_parsed
unfolding parse_rule_spec
odd_run = refl

not_five_run : parse_rule_spec not_five ≡ ok not_five_parsed
unfolding parse_rule_spec
not_five_run = refl

create_mask-matches_example :
    create_mask parity not_five_parsed (pos 5 ∷ pos 6 ∷ [])
    ≡ some (map (matches parity not_five_parsed) (pos 5 ∷ pos 6 ∷ []))
create_mask-matches_example =
    create_mask-matches parity not_five not_five_parsed (pos 5 ∷ pos 6 ∷ []) not_five_run

abbrev coloured : MaskRule ℕ → ℤ → ValueMapRule thousandths ℕ
coloured r red = record {
  rule = r;
  red = red;
  green = pos 0;
  blue = pos 1000;
  alpha = pos 1000;
  label = none;
}

abbrev rules : List (ValueMapRule thousandths ℕ)
rules = coloured odd_parsed (pos 1000) ∷ coloured not_five_parsed (pos 500) ∷ []

abbrev painted : List Rgba
painted =
    record { red = 255; green = 0; blue = 255; alpha = 255 }
    ∷ record { red = 128; green = 0; blue = 255; alpha = 255 }
    ∷ record { red = 255; green = 0; blue = 255; alpha = 255 }
    ∷ []

abbrev flag_data : Dict String (List ℤ)
flag_data = ("fmask", pos 5 ∷ pos 6 ∷ pos 7 ∷ []) ∷ []

paint_run :
    apply_value_map thousandths parity (("mask", "fmask") ∷ []) 3 flag_data (("mask", rules) ∷ [])
    ≡ ok painted
unfolding apply_value_map create_mask convert_to_uint8 band quot ◌+ℤ◌ ◌*ℤ◌
paint_run = refl

apply_value_map-last_match_example :
    get_elem? painted 1
    ≡ some (
        or_else
          (last_match thousandths parity
            (("mask", "fmask") ∷ [])
            flag_data
            (("mask", rules) ∷ [])
            1)
          transparent)
apply_value_map-last_match_example =
    apply_value_map-last_match thousandths parity (("mask", "fmask") ∷ []) 3 flag_data
      (("mask", rules) ∷ []) painted 1 (refl, tt)
      (((odd_rule, odd_run), ((not_five, not_five_run), tt)), tt) (ground arith) paint_run

-- The first date has the value 1, and the second neither 2 nor 3.
abbrev two_dates : RawMultiRule ℕ
two_dates = record {
  invert = some (false ∷ true ∷ []);
  flags = none;
  values = some ((pos 1 ∷ []) ∷ (pos 2 ∷ pos 3 ∷ []) ∷ []);
}

abbrev two_dates_rule : MultiRule ℕ
two_dates_rule = record {
  invert = false ∷ true ∷ [];
  flags = [];
  values = (pos 1 ∷ []) ∷ (pos 2 ∷ pos 3 ∷ []) ∷ [];
}

two_dates-parsed : parse_multi_rule 2 two_dates ≡ ok two_dates_rule
unfolding parse_multi_rule
two_dates-parsed = refl

-- The values at a position are those of two lists.
abbrev value_at : List ℤ → ℕ → ℤ
value_at xs i = elim (get_elem? xs i) [ none ↦ pos 0 | some x ↦ x ]

abbrev observed : List (ℕ → ℤ)
observed = value_at (pos 1 ∷ pos 1 ∷ pos 0 ∷ []) ∷ value_at (pos 2 ∷ pos 5 ∷ pos 5 ∷ []) ∷ []

create_multi_mask-matches_example :
    create_multi_mask (λ fs x. true) two_dates_rule (slices_of observed (0 ∷ 1 ∷ 2 ∷ []))
    ≡ some (false ∷ true ∷ false ∷ [])
create_multi_mask-matches_example =
    create_multi_mask-matches (λ fs x. true) (0 ∷ 1 ∷ 2 ∷ []) 2 two_dates two_dates_rule observed
      two_dates-parsed refl (omega arith)
