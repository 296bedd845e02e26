-- ===== src/Styles/MultiDate.antt =====
-- Rules on several dates: `class MultiDateValueMapRule` of datacube_ows/styles/colormap.py. The data are a
-- slice of pixels for each date, of integers, so that a pixel equals itself.
pub mod Matches
use datacube_ows.Base.{
  ℕ, Bool, true, false, not, ◌&&◌, Option, none, some, List, [], ◌∷◌, String, map, length,
  replicate, Result, ok, err, ◌>>=◌, ◌>>◌, raise_if, traverse, Dict, ◌==◌, nat_eq, if◌then◌else◌,
}
use datacube_ows.Base.Int.{ℤ, int_eq}
use datacube_ows.Styles.Rules.{RawFlags, Mask, zip_with, mask_values, mask_any_flag, invert_mask}

-- The configuration of a rule, with an entry for each date.
pub record RawMultiRule (V : Type 0) : Type 0 where
  pub invert : Option (List Bool)
  pub flags : Option (List (RawFlags V))
  pub values : Option (List (List ℤ))

pub data MultiError : Type 0 where
  invert_count flags_count combines_and_or nothing_to_match flags_and_values : MultiError

pub record MultiRule (V : Type 0) : Type 0 where
  pub invert : List Bool
  pub flags : List (Dict String V × Bool)
  pub values : List (List ℤ)

abbrev pub is_nil {ℓ} : {A : Type ℓ} → List A → Bool
is_nil [] = true
is_nil (_ ∷ _) = false

-- `mask &= m`, where either may be None
abbrev pub and_mask : Option Mask → Option Mask → Option Mask
and_mask none m = m
and_mask (some mask) none = some mask
and_mask (some mask) (some m) = some (zip_with (λ a b. a && b) mask m)

-- `d_slice == d_slice`
abbrev pub everywhere : List ℤ → Option Mask
everywhere pixels = some (map (λ x. true) pixels)

-- The mask of one date, by values.
pub date_values : List ℤ → List ℤ → Option Mask
date_values pixels [] = everywhere pixels
date_values pixels (v ∷ vs) = mask_values pixels (v ∷ vs) none

-- A loop over the dates, the entries of a rule and the inversions, as far as all three go.
pub dates_loop :
    {T : Type 0}
    → (List ℤ → T → Option Mask)
    → List (List ℤ)
    → List T
    → List Bool
    → Option Mask
    → Option Mask
dates_loop date_mask (s ∷ slices) (t ∷ entries) (i ∷ invert) mask =
    dates_loop date_mask slices entries invert (and_mask mask (invert_mask i (date_mask s t)))
dates_loop date_mask _ _ _ mask = mask

pub invert_of : ℕ → Option (List Bool) → Result MultiError (List Bool)
invert_of max_count none = ok (replicate max_count false)
invert_of max_count (some given) =
    raise_if (not (length given == max_count)) invert_count >> ok given

abbrev pub values_of : Option (List (List ℤ)) → List (List ℤ)
values_of none = []
values_of (some vs) = vs

module _ {V : Type 0} where
  -- The flags of one date, and whether one of them is enough.
  abbrev pub date_flags_of : RawFlags V → Result MultiError (Dict String V × Bool)
  date_flags_of f = elim f.or_group [
    | some group ↦ elim f.and_group [ some _ ↦ err combines_and_or | none ↦ ok (group, true) ]
    | none ↦ elim f.and_group [ some group ↦ ok (group, false) | none ↦ ok (f.others, false) ]
  ]

  pub flags_of : ℕ → Option (List (RawFlags V)) → Result MultiError (List (Dict String V × Bool))
  flags_of max_count none = ok []
  flags_of max_count (some given) =
      raise_if (not (length given == max_count)) flags_count >> traverse date_flags_of given

  -- `parse_rule_spec`; the number of values is not compared with the number of dates.
  unfoldable pub parse_multi_rule : ℕ → RawMultiRule V → Result MultiError (MultiRule V)
  unfolding invert_of flags_of
  parse_multi_rule max_count cfg = do
    invert ← invert_of max_count cfg.invert
    flags ← flags_of max_count cfg.flags
    let values = values_of cfg.values
    raise_if (is_nil flags && is_nil values) nothing_to_match
    raise_if (not (is_nil flags) && not (is_nil values)) flags_and_values
    ok (record { invert = invert; flags = flags; values = values })

module _ {V : Type 0} (make_mask : Dict String V → ℤ → Bool) where
  -- The mask of one date, by flags.
  pub date_flags : List ℤ → Dict String V × Bool → Option Mask
  date_flags pixels ([], or_flags) = everywhere pixels
  date_flags pixels (f ∷ fs, true) = mask_any_flag make_mask pixels (f ∷ fs) none
  date_flags pixels (f ∷ fs, false) = some (map (make_mask (f ∷ fs)) pixels)

  -- `create_mask`
  unfoldable pub create_multi_mask : MultiRule V → List (List ℤ) → Option Mask
  unfolding dates_loop date_values date_flags
  create_multi_mask self slices =
      if is_nil self.values
      then dates_loop date_flags slices self.flags self.invert none
      else dates_loop date_values slices self.values self.invert none
