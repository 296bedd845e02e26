-- ===== src/Wms/Params.antt =====
-- The choice of a layer and of a style by a WMS request (`get_layer_from_arg` and
-- `single_style_from_args` of datacube_ows/wms_utils.py). A style is a value of a type of its own; making
-- one from an expression, which the style classes do, and the colour maps of matplotlib are parameters.
pub mod Requests
pub mod Chosen
pub mod Accepted
pub mod Sound
mod Tests
use datacube_ows.Base.{
  ℕ, Bool, true, false, not, ◌&&◌, ◌||◌, Option, none, some, List, [], ◌∷◌, String, Result, ok, err,
  ◌>>=◌, ◌>>◌, raise_if, or_raise, Dict, lookup, has_key, ◌==◌, string_eq, if◌then◌else◌,
}
use datacube_ows.Base.Text.{split, starts_with}
use datacube_ows.Base.Float.{Floats}
use datacube_ows.Wms.Times.{TimeError, LayerTimes, get_arg}

pub data ErrorCode : Type 0 where
  no_code invalid_crs layer_not_defined style_not_defined invalid_format invalid_point : ErrorCode

-- A WMSException, by its code and its locator, one about a time, or an exception that the code does not
-- catch.
pub data WmsError : Type 0 where
  wms_exception : ErrorCode → String → WmsError
  time_error : TimeError → WmsError
  unpublished_crs : String → WmsError
  key_error : String → WmsError
  value_error : WmsError
  zero_division : WmsError
  attribute_error : WmsError

abbrev pub Args : Type 0
Args = Dict String String

-- `args.get(name, default)`
abbrev pub arg_or : String → String → Args → String
arg_or default name args = elim (lookup name args) [ none ↦ default | some v ↦ v ]

abbrev pub time_result : {A : Type 0} → Result TimeError A → Result WmsError A
time_result (ok a) = ok a
time_result (err e) = err (time_error e)

-- `get_arg`, with the error that it raises.
pub arg_with : ErrorCode → String → Result TimeError String → Result WmsError String
arg_with code locator (ok v) = ok v
arg_with code locator (err e) = err (wms_exception code locator)

unfoldable pub checked_arg :
    Args → String → ErrorCode → String → Bool → List String → Result WmsError String
unfolding arg_with
checked_arg args name code locator lowered permitted =
    arg_with code locator (get_arg args name lowered permitted)

-- `lyr.split("__")[0]`
pub before_double : String → String
before_double String.[] = String.[]
before_double (String.◌∷◌ c s) =
    let rest = before_double s in
    if starts_with "__" (String.◌∷◌ c s) then String.[] else String.◌∷◌ c rest

module _ (fl : Floats) (S : Type 0) where
  open fl use {F, lt, eq, decimal}

  pub record LayerW : Type 0 where
    pub times : LayerTimes
    pub user_band_math : Bool
    pub style_index : Dict String S
    -- `layer.default_style.name`
    pub default_style : String
    pub native_crs : String
    pub resolution_x : F
    pub resolution_y : F

  -- `get_layer_from_arg`
  unfoldable pub get_layer_from_arg : Dict String LayerW → Args → String → Result WmsError LayerW
  unfolding before_double
  get_layer_from_arg layer_index args argname = elim (split b',' (arg_or "" argname args)) [
    | [] ↦ err (wms_exception no_code "")
    | lyr ∷ [] ↦
        or_raise (lookup (before_double lyr) layer_index)
          (wms_exception layer_not_defined "Layer parameter")
    | _ ∷ _ ∷ _ ↦ err (wms_exception no_code "")
  ]

  -- What the code calls: `float`, `plt.get_cmap`, and the class of styles for an expression, a colour
  -- map and a range, which may refuse the expression.
  pub record StyleCalls : Type 0 where
    pub parse_float : String → Option F
    pub has_cmap : String → Bool
    pub user_style : String → String → F → F → Option S

  -- `lo >= hi`
  abbrev pub at_least : F → F → Bool
  at_least lo hi = lt hi lo || eq hi lo

  -- The range of colours: two numbers, sorted.
  pub two_floats : (String → Option F) → List String → Option (F × F)
  two_floats parse_float (a ∷ b ∷ []) = elim (parse_float a) [
    | none ↦ none
    | some lo ↦ elim (parse_float b) [
      | none ↦ none
      | some hi ↦ if at_least lo hi then none else some (lo, hi)
    ]
  ]
  two_floats parse_float _ = none

  -- The branch for an expression of the user.
  pub custom_style : StyleCalls → Args → String → String → Result WmsError S
  unfolding two_floats
  custom_style calls args code mpl_ramp = do
    raise_if (not (calls.has_cmap mpl_ramp)) (wms_exception no_code "Colorscalerange parameter")
    range ←
        or_raise (two_floats calls.parse_float (split b',' (arg_or "0,1" "colorscalerange" args)))
          (wms_exception no_code "Colorscalerange parameter")
    or_raise (calls.user_style code mpl_ramp range.0 range.1)
        (wms_exception no_code "Code parameter")

  pub indexed_style : LayerW → String → Result WmsError (Option S)
  indexed_style layer name = elim (lookup name layer.style_index) [
    | none ↦ err (wms_exception style_not_defined "Style parameter")
    | some style ↦ ok (some style)
  ]

  -- The branch for the styles of the layer.
  pub layer_style : LayerW → List String → Bool → Result WmsError (Option S)
  unfolding indexed_style
  layer_style layer (name ∷ []) required =
      if name == ""
      then if required then indexed_style layer layer.default_style else ok none
      else indexed_style layer name
  layer_style layer _ required = err (wms_exception no_code "")

  -- The arguments of an expression, if the layer allows one.
  pub user_code : LayerW → Args → Option (String × String)
  user_code layer args = elim (lookup "code" args) [
    | none ↦ none
    | some code ↦ elim (lookup "colorscheme" args) [
      | none ↦ none
      | some ramp ↦ if layer.user_band_math then some (code, ramp) else none
    ]
  ]

  unfoldable pub single_style_from_args :
      StyleCalls → LayerW → Args → Bool → Result WmsError (Option S)
  unfolding user_code custom_style layer_style
  single_style_from_args calls layer args required = elim (user_code layer args) [
    | none ↦ layer_style layer (split b',' (arg_or "" "styles" args)) required
    | some (code, ramp) ↦ custom_style calls args code ramp >>= λ style. ok (some style)
  ]
