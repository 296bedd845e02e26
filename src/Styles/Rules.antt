-- ===== src/Styles/Rules.antt =====
-- Mask rules on the values of a flag band: `class AbstractMaskRule` (datacube_ows/config_utils.py).
-- `V` is the type of the values that a flag is asked for. The datacube's `make_mask`, which tests
-- every pixel for a dictionary of flags, is a parameter, given by its test of one pixel.
pub mod Matches
use datacube_ows.Base.{
  Bool, true, false, ◌&&◌, ◌||◌, not, Option, none, some, List, [], ◌∷◌, String, map, Result, ok,
  err, ◌>>=◌, ◌>>◌, raise_if, Dict, ◌==◌, if◌then◌else◌,
}
use datacube_ows.Base.Int.{ℤ, int_eq}

-- A dictionary of flags, whose keys "or" and "and" lead to dictionaries of their own.
pub record RawFlags (V : Type 0) : Type 0 where
  pub or_group : Option (Dict String V)
  pub and_group : Option (Dict String V)
  pub others : Dict String V

pub data RawValues : Type 0 where
  one : ℤ → RawValues
  many : List ℤ → RawValues

pub record RawMaskRule (V : Type 0) : Type 0 where
  pub invert : Bool
  pub flags : Option (RawFlags V)
  pub values : Option RawValues

pub data MaskError : Type 0 where
  combines_and_or nothing_to_match flags_and_values : MaskError

pub record MaskRule (V : Type 0) : Type 0 where
  pub flags : Option (Dict String V)
  pub or_flags : Bool
  pub values : Option (List ℤ)
  pub invert : Bool

-- Python's `not x` for a list or dictionary that may be None.
abbrev pub is_empty {ℓ} : {A : Type ℓ} → Option (List A) → Bool
is_empty none = true
is_empty (some []) = true
is_empty (some (_ ∷ _)) = false

pub parse_values : Option RawValues → Option (List ℤ)
parse_values none = none
parse_values (some (one z)) = some (z ∷ [])
parse_values (some (many zs)) = some zs

module _ {V : Type 0} where
  -- The flags to test, and whether one of them is enough.
  pub parse_flags : Option (RawFlags V) → Result MaskError (Option (Dict String V) × Bool)
  parse_flags none = ok (none, false)
  parse_flags (some f) = elim f.or_group [
    | some group ↦ elim f.and_group [ some _ ↦ err combines_and_or | none ↦ ok (some group, true) ]
    | none ↦ elim f.and_group [
      | some group ↦ ok (some group, false)
      | none ↦ ok (some f.others, false)
    ]
  ]

  -- `parse_rule_spec`
  unfoldable pub parse_rule_spec : RawMaskRule V → Result MaskError (MaskRule V)
  unfolding parse_flags parse_values
  parse_rule_spec cfg = do
    (flags, or_flags) ← parse_flags cfg.flags
    let values = parse_values cfg.values
    raise_if (is_empty flags && is_empty values) nothing_to_match
    raise_if (not (is_empty flags) && not (is_empty values)) flags_and_values
    ok (record { flags = flags; or_flags = or_flags; values = values; invert = cfg.invert })

-- A mask of an image, pixel by pixel.
abbrev pub Mask : Type 0
Mask = List Bool

abbrev pub zip_with {ℓ κ μ} :
    {A : Type ℓ} {B : Type κ} {C : Type μ} → (A → B → C) → List A → List B → List C
zip_with f (x ∷ xs) (y ∷ ys) = f x y ∷ zip_with f xs ys
zip_with f _ _ = []

-- `mask |= m`, where the mask may be None so far
abbrev pub or_mask : Option Mask → Mask → Option Mask
or_mask none m = some m
or_mask (some mask) m = some (zip_with (λ a b. a || b) mask m)

pub mask_values : List ℤ → List ℤ → Option Mask → Option Mask
mask_values pixels [] mask = mask
mask_values pixels (v ∷ vs) mask = mask_values pixels vs (or_mask mask (map (λ x. x == v) pixels))

pub invert_mask : Bool → Option Mask → Option Mask
invert_mask true (some mask) = some (map not mask)
invert_mask _ mask = mask

abbrev pub or_empty {ℓ} : {A : Type ℓ} → Option (List A) → List A
or_empty none = []
or_empty (some xs) = xs

module _ {V : Type 0} (make_mask : Dict String V → ℤ → Bool) where
  pub mask_any_flag : List ℤ → Dict String V → Option Mask → Option Mask
  mask_any_flag pixels [] mask = mask
  mask_any_flag pixels (f ∷ fs) mask =
      mask_any_flag pixels fs (or_mask mask (map (make_mask (f ∷ [])) pixels))

  -- `create_mask`
  unfoldable pub create_mask : MaskRule V → List ℤ → Option Mask
  unfolding mask_values mask_any_flag invert_mask
  create_mask self pixels =
      let flags = or_empty self.flags in
      let by_flags =
        if self.or_flags
        then mask_any_flag pixels flags none
        else some (map (make_mask flags) pixels) in
      invert_mask self.invert
        (if is_empty self.values then by_flags else mask_values pixels (or_empty self.values) none)
