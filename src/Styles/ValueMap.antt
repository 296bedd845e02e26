-- ===== src/Styles/ValueMap.antt =====
-- Value maps: the image that the rules of a colour map paint (`apply_value_map` of
-- datacube_ows/styles/colormap.py), and the legend's patches. An image is the list of its pixels. The
-- data of a band are integers: the code converts floats first.
pub mod Painting
use Prim.Native.String.{◌++◌ as concat}
use datacube_ows.Base.{
  traverse, ◌==◌, nat_eq, ℕ, zero, suc, ◌+◌, min, Bool, true, false, not, Option, none, some, List,
  [], ◌∷◌, ◌++◌, String, map, reverse, replicate, any, Result, ok, err, ◌>>=◌, ◌>>◌, raise_if,
  or_raise, Dict, lookup, string_eq, if◌then◌else◌,
}
use datacube_ows.Base.Int.{ℤ, pos, pos_part}
use datacube_ows.Base.Float.{Floats}
use datacube_ows.Config.Bands.{BandError, band}
use datacube_ows.Styles.Rules.{
  RawMaskRule, MaskRule, MaskError, Mask, zip_with, create_mask, parse_rule_spec,
}

pub record Rgba : Type 0 where
  pub red : ℕ
  pub green : ℕ
  pub blue : ℕ
  pub alpha : ℕ

abbrev pub transparent : Rgba
transparent = record { red = 0; green = 0; blue = 0; alpha = 0 }

pub data MapError : Type 0 where
  bad_band : BandError → MapError
  no_data : String → MapError
  bad_rule : MaskError → MapError
  dates_vary : MapError

-- One rule on the image: its mask, if it has one that is true somewhere, puts its colour.
pub paint : Option Mask → Rgba → List Rgba → List Rgba
paint none c img = img
paint (some mask) c img =
    if any (λ b. b) mask then zip_with (λ b p. if b then c else p) mask img else img

-- The data of a band that the configuration names.
abbrev pub band_data : Dict String String → Dict String (List ℤ) → String → Result MapError (List ℤ)
band_data idx pixels cfg_band = elim (band idx cfg_band) [
  | err e ↦ err (bad_band e)
  | ok b ↦ or_raise (lookup b pixels) (no_data b)
]

abbrev varying : Option (ℕ × ℕ) → Bool
varying none = false
varying (some (least, greatest)) = not (least == greatest)

module _ (fl : Floats) where
  open fl use {F, add, mul, decimal, trunc, lt}

  unfoldable pub convert_to_uint8 : F → ℕ
  convert_to_uint8 fval =
      min (pos_part (trunc (add (mul fval (decimal (pos 2550) 1)) (decimal (pos 5) 1)))) 255

  -- `class AbstractValueMapRule`. The channels of the colour come from the package `colour`.
  pub record ValueMapRule (V : Type 0) : Type 0 where
    pub rule : MaskRule V
    pub red : F
    pub green : F
    pub blue : F
    pub alpha : F
    -- None where it would be empty.
    pub label : Option String

  -- The configuration of a rule: its colour as read, `mask` and `alpha` (1.0 if missing), and its
  -- title and abstract, empty if missing.
  pub record RawValueMapRule (V : Type 0) : Type 0 where
    pub spec : RawMaskRule V
    pub red : F
    pub green : F
    pub blue : F
    pub mask : Bool
    pub alpha : F
    pub title : String
    pub abstract : String

  pub colour_of : {V : Type 0} → ValueMapRule V → Rgba
  unfolding convert_to_uint8
  colour_of r = record {
    red = convert_to_uint8 r.red;
    green = convert_to_uint8 r.green;
    blue = convert_to_uint8 r.blue;
    alpha = convert_to_uint8 r.alpha;
  }

  module _ {V : Type 0} (make_mask : Dict String V → ℤ → Bool) where
    -- The rules of one band, in the order that they are given.
    pub paint_rules : List (ValueMapRule V) → List ℤ → List Rgba → List Rgba
    paint_rules [] bdata img = img
    paint_rules (r ∷ rs) bdata img =
        paint_rules rs bdata (paint (create_mask make_mask r.rule bdata) (colour_of r) img)

    -- The loop over the bands; the rules of a band are applied from the last to the first.
    pub paint_bands :
        Dict String String
        → Dict String (List ℤ)
        → Dict String (List (ValueMapRule V))
        → List Rgba
        → Result MapError (List Rgba)
    paint_bands idx pixels [] img = ok img
    paint_bands idx pixels ((cfg_band, rules) ∷ value_map) img =
        band_data idx pixels cfg_band >>= λ bdata.
        paint_bands idx pixels value_map (paint_rules (reverse rules) bdata img)

    -- `apply_value_map` on `n` pixels
    unfoldable pub apply_value_map :
        Dict String String
        → ℕ
        → Dict String (List ℤ)
        → Dict String (List (ValueMapRule V))
        → Result MapError (List Rgba)
    unfolding paint_bands paint_rules paint colour_of
    apply_value_map idx n pixels value_map =
        paint_bands idx pixels value_map (replicate n transparent)

  -- `parse_color` and the labels of `AbstractValueMapRule.__init__`
  pub new_value_map_rule : {V : Type 0} → RawValueMapRule V → Result MapError (ValueMapRule V)
  new_value_map_rule cfg = elim (parse_rule_spec cfg.spec) [
    | err e ↦ err (bad_rule e)
    | ok rule ↦ ok (record {
      rule = rule;
      red = cfg.red;
      green = cfg.green;
      blue = cfg.blue;
      alpha = if cfg.mask then decimal (pos 0) 1 else cfg.alpha;
      label =
          if cfg.title == ""
          then (if cfg.abstract == "" then none else some cfg.abstract)
          else if cfg.abstract == ""
          then some cfg.title
          else some (concat cfg.title (concat " - " cfg.abstract));
    })
  ]

  new_rules : {V : Type 0} → List (RawValueMapRule V) → Result MapError (List (ValueMapRule V))
  unfolding new_value_map_rule
  new_rules cfgs = traverse new_value_map_rule cfgs

  -- `value_map_from_config` for the rules of a single date; `dates` are the least and greatest
  -- numbers of dates of a multi-date handler without aggregator, which must agree.
  pub value_map_from_config :
      {V : Type 0}
      → Option (ℕ × ℕ)
      → Dict String (List (RawValueMapRule V))
      → Result MapError (Dict String (List (ValueMapRule V)))
  unfolding new_rules
  value_map_from_config dates cfg = do
    raise_if (varying dates) dates_vary
    traverse (λ e. new_rules e.1 >>= λ rules. ok (e.0, rules)) cfg

  -- A patch of the legend: the index of its rule, the colour and the label of that.
  pub record PatchTemplate : Type 0 where
    pub idx : ℕ
    pub colour : F × F × F
    pub label : String

  -- `if rule.alpha > 0.001 and rule.label`
  abbrev patches_of_rule : {V : Type 0} → ℕ → ValueMapRule V → List PatchTemplate
  patches_of_rule i r = elim r.label [
    | none ↦ []
    | some l ↦
        if lt (decimal (pos 1) 3) r.alpha
        then record { idx = i; colour = (r.red, r.green, r.blue); label = l } ∷ []
        else []
  ]

  -- The patches of one band, from the last rule to the first.
  pub band_patches : {V : Type 0} → ℕ → List (ValueMapRule V) → List PatchTemplate
  band_patches i [] = []
  band_patches i (r ∷ rs) = band_patches (suc i) rs ++ patches_of_rule i r

  -- `register_value_map`
  pub register_value_map : {V : Type 0} → Dict String (List (ValueMapRule V)) → List PatchTemplate
  unfolding band_patches
  register_value_map [] = []
  register_value_map ((_, rules) ∷ value_map) = band_patches 0 rules ++ register_value_map value_map
