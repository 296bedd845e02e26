-- ===== src/Wms/Params/Chosen.antt =====
-- The style that a WMS request asks for.
use datacube_ows.Base.{
  ◌≡◌, ◌≢◌, ◌⊎◌, ◌&&◌, has_key, refl, ok_injective, >>=-eq-ok, subst, inl, inr, ◌↔◌, Bool, true,
  false, Option, none, some, List, [], ◌∷◌, String, ok, lookup, ◌==◌, string_eq, arith,
  Option-cases, Bool-cases, if◌then◌else◌,
}
use datacube_ows.Base.Text.{split}
use datacube_ows.Base.Float.{Floats}
use datacube_ows.Wms.Params.{
  Args, arg_or, LayerW, StyleCalls, at_least, two_floats, custom_style, indexed_style, layer_style,
  user_code, single_style_from_args,
}

module _ (fl : Floats) {S : Type 0} (calls : StyleCalls fl S) where
  open fl use {F}

  -- An expression with a colour map and a sorted range of two numbers, on a layer that allows it.
  abbrev pub Custom : LayerW fl S → Args → Option S → Type 0
  Custom layer args chosen =
      (code : String) × (ramp : String) × (lo_text : String) × (hi_text : String) × (lo : F)
      × (hi : F) × (style : S) × (layer.user_band_math ≡ true)
      × (lookup "code" args ≡ some code)
      × (lookup "colorscheme" args ≡ some ramp)
      × (calls.has_cmap ramp ≡ true)
      × (split b',' (arg_or "0,1" "colorscalerange" args) ≡ lo_text ∷ hi_text ∷ [])
      × (calls.parse_float lo_text ≡ some lo)
      × (calls.parse_float hi_text ≡ some hi)
      × (at_least fl S lo hi ≡ false)
      × (calls.user_style code ramp lo hi ≡ some style)
      × (chosen ≡ some style)

  -- The one style of a list of names, or the default of the layer if the name is empty, or no style if
  -- none is needed.
  abbrev pub Listed : LayerW fl S → List String → Bool → Option S → Type 0
  Listed layer names required chosen =
      (name : String) × (names ≡ name ∷ [])
      × (((name ≡ "") × (required ≡ false) × (chosen ≡ none))
          ⊎ ((style : S) × ((name ≢ "") ⊎ (required ≡ true))
              × (lookup (if name == "" then layer.default_style else name) layer.style_index
                  ≡ some style)
              × (chosen ≡ some style)))

  abbrev pub Named : LayerW fl S → Args → Bool → Option S → Type 0
  Named layer args required chosen =
      (layer.user_band_math && has_key "code" args && has_key "colorscheme" args ≡ false)
      × Listed layer (split b',' (arg_or "" "styles" args)) required chosen

  two_floats-sorted :
      (texts : List String) (range : F × F)
      → two_floats fl S calls.parse_float texts ≡ some range
      → (lo_text : String) × (hi_text : String) × (texts ≡ lo_text ∷ hi_text ∷ [])
        × (calls.parse_float lo_text ≡ some range.0)
        × (calls.parse_float hi_text ≡ some range.1)
        × (at_least fl S range.0 range.1 ≡ false)
  unfolding two_floats
  two_floats-sorted [] range h = cc
  two_floats-sorted (a ∷ []) range h = cc
  two_floats-sorted (a ∷ b ∷ c ∷ texts) range h = cc
  two_floats-sorted (a ∷ b ∷ []) range h = elim (Option-cases (calls.parse_float a)) [
    | inl bad ↦ absurd (ground arith)
    | inr (lo, low) ↦ elim (Option-cases (calls.parse_float b)) [
      | inl bad ↦ absurd (ground arith)
      | inr (hi, high) ↦ elim (Bool-cases (at_least fl S lo hi)) [
        | inl unsorted ↦ absurd (ground arith)
        | inr sorted ↦
            let Read : F × F → Type 0 = λ q.
              (calls.parse_float a ≡ some q.0)
              × (calls.parse_float b ≡ some q.1)
              × (at_least fl S q.0 q.1 ≡ false) in
            let (low_range, high_range, in_order) =
              subst Read {x = (lo, hi)} {y = range} (ground arith) (low, high, sorted) in
            (a, b, refl, low_range, high_range, in_order)
      ]
    ]
  ]

  custom_style-Custom :
      (layer : LayerW fl S) (args : Args) (code ramp : String) (style : S)
      → layer.user_band_math ≡ true
      → lookup "code" args ≡ some code
      → lookup "colorscheme" args ≡ some ramp
      → custom_style fl S calls args code ramp ≡ ok style
      → Custom layer args (some style)
  unfolding custom_style
  custom_style-Custom layer args code ramp style b c r h = elim (Bool-cases (calls.has_cmap ramp)) [
    | inr unknown ↦ absurd (ground arith)
    | inl known ↦
        let texts = split b',' (arg_or "0,1" "colorscalerange" args) in
        elim (Option-cases (two_floats fl S calls.parse_float texts)) [
          | inl bad ↦ absurd (ground arith)
          | inr (range, read) ↦
              let (lo_text, hi_text, parts, low, high, sorted) =
                two_floats-sorted texts range read in
              (
                code,
                ramp,
                lo_text,
                hi_text,
                range.0,
                range.1,
                style,
                b,
                c,
                r,
                known,
                parts,
                low,
                high,
                sorted,
                ground arith,
                refl,
              )
        ]
  ]

  plain_user_code :
      (layer : LayerW fl S) (args : Args)
      → layer.user_band_math && has_key "code" args && has_key "colorscheme" args ≡ false
      → user_code fl S layer args ≡ none
  unfolding user_code
  plain_user_code layer args plain = elim (Option-cases (lookup "code" args)) [
    | inl absent ↦ ground arith
    | inr (code, given) ↦ elim (Option-cases (lookup "colorscheme" args)) [
      | inl absent ↦ ground arith
      | inr (ramp, coloured) ↦ ground arith
    ]
  ]

  indexed_style-found :
      (layer : LayerW fl S) (name : String) (chosen : Option S)
      → indexed_style fl S layer name ≡ ok chosen
      → (style : S) × (lookup name layer.style_index ≡ some style) × (chosen ≡ some style)
  unfolding indexed_style
  indexed_style-found layer name chosen h = elim (Option-cases (lookup name layer.style_index)) [
    | inl absent ↦ absurd (ground arith)
    | inr (style, found) ↦ (style, found, ground arith)
  ]

  user_code-cases :
      (layer : LayerW fl S) (args : Args)
      → (layer.user_band_math && has_key "code" args && has_key "colorscheme" args ≡ false)
        ⊎ ((code : String) × (ramp : String) × (layer.user_band_math ≡ true)
            × (lookup "code" args ≡ some code)
            × (lookup "colorscheme" args ≡ some ramp)
            × (user_code fl S layer args ≡ some (code, ramp)))
  unfolding user_code
  user_code-cases layer args = elim (Option-cases (lookup "code" args)) [
    | inl absent ↦ inl (ground arith)
    | inr (code, coded) ↦ elim (Option-cases (lookup "colorscheme" args)) [
      | inl absent ↦ inl (ground arith)
      | inr (ramp, coloured) ↦ elim (Bool-cases layer.user_band_math) [
        | inr refused ↦ inl (ground arith)
        | inl allowed ↦ inr (code, ramp, allowed, coded, coloured, ground arith)
      ]
    ]
  ]

  layer_style-Listed :
      (layer : LayerW fl S) (names : List String) (required : Bool) (chosen : Option S)
      → layer_style fl S layer names required ≡ ok chosen
      → Listed layer names required chosen
  unfolding layer_style
  layer_style-Listed layer [] required chosen h = absurd (ground arith)
  layer_style-Listed layer (a ∷ b ∷ names) required chosen h = absurd (ground arith)
  layer_style-Listed layer (name ∷ []) required chosen h = elim (Bool-cases (name == "")) [
    | inr given ↦
        let (style, found, is) = indexed_style-found layer name chosen (ground (arith, given, h)) in
        (
          name,
          refl,
          inr (style, inl (λ e. ground (arith, string_eq.beq_iff name "")), ground arith, is),
        )
    | inl empty ↦ elim (Bool-cases required) [
      | inl needed ↦
          let (style, found, is) =
            indexed_style-found layer layer.default_style chosen
              (ground (arith, empty, needed, h)) in
          (name, refl, inr (style, inr needed, ground arith, is))
      | inr optional ↦
          (name, refl, inl (ground (arith, string_eq.beq_iff name ""), optional, ground arith))
    ]
  ]

  Custom-chosen :
      (layer : LayerW fl S) (args : Args) (required : Bool) (chosen : Option S)
      → Custom layer args chosen
      → single_style_from_args fl S calls layer args required ≡ ok chosen
  unfolding single_style_from_args user_code custom_style two_floats
  Custom-chosen layer args required chosen
        (
          code, ramp, lo_text, hi_text, lo, hi, style, b, c, r, known, parts, low, high, sorted,
          made, is,
        ) =
      ground arith

  Named-chosen :
      (layer : LayerW fl S) (args : Args) (required : Bool) (chosen : Option S)
      → Named layer args required chosen
      → single_style_from_args fl S calls layer args required ≡ ok chosen
  unfolding single_style_from_args user_code layer_style indexed_style
  Named-chosen layer args required chosen (plain, (name, parts, inl (empty, optional, is))) =
      ground (arith, string_eq.beq_iff name "", plain_user_code layer args plain)
  Named-chosen layer args required chosen (plain, (name, parts, inr (style, needed, found, is))) =
      ground (arith, string_eq.beq_iff name "", plain_user_code layer args plain)

  style-chosen :
      (layer : LayerW fl S) (args : Args) (required : Bool) (chosen : Option S)
      → single_style_from_args fl S calls layer args required ≡ ok chosen
      → Custom layer args chosen ⊎ Named layer args required chosen
  unfolding single_style_from_args
  style-chosen layer args required chosen h = elim (user_code-cases layer args) [
    | inl plain ↦ inr (
      plain,
      layer_style-Listed layer (split b',' (arg_or "" "styles" args)) required chosen
          (ground (arith, plain_user_code layer args plain, h)),
    )
    | inr (code, ramp, allowed, coded, coloured, both) ↦
        let (style, made, is) =
          >>=-eq-ok (custom_style fl S calls args code ramp) (λ style. ok (some style))
            {last = chosen} (ground (arith, both, h)) in
        inl (
          subst (Custom layer args) (ok_injective is)
            (custom_style-Custom layer args code ramp style allowed coded coloured made))
  ]

  -- A WMS request is for a style if and only if its layer allows expressions and the request has one,
  -- with a colour map and a sorted range, of which a style can be made; or there is no expression, and
  -- it lists one style, which the layer has, the default if the name is empty. Where no style is needed,
  -- an empty name chooses none.
  pub single_style_from_args_iff :
      (layer : LayerW fl S) (args : Args) (required : Bool) (chosen : Option S)
      → (single_style_from_args fl S calls layer args required ≡ ok chosen)
        ↔ (Custom layer args chosen ⊎ Named layer args required chosen)
  single_style_from_args_iff layer args required chosen = (
    style-chosen layer args required chosen,
    λ h. elim h [
      | inl custom ↦ Custom-chosen layer args required chosen custom
      | inr named ↦ Named-chosen layer args required chosen named
    ],
  )
