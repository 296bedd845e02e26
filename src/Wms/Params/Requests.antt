-- ===== src/Wms/Params/Requests.antt =====
-- The parameters of a WMS request as a whole: the classes GetParameters, GetMapParameters,
-- GetFeatureInfoParameters and GetLegendGraphicParameters of datacube_ows/wms_utils.py. The resources of
-- a map are what RequestScale is made of. The resampling, which is always the nearest, is left out.
use datacube_ows.Base.{
  ℕ, Bool, true, false, not, Option, List, [], ◌∷◌, String, Result, ok, ◌>>=◌, ◌>>◌, raise_if,
  or_raise, Dict, lookup, map, length, ◌==◌, string_eq, if◌then◌else◌,
}
use datacube_ows.Base.Int.{ℤ, ltb_ℤ}
use datacube_ows.Base.Text.{codes}
use datacube_ows.Base.Decimal.{py_int}
use datacube_ows.Base.Float.{Floats}
use datacube_ows.Config.Crs.{CrsDef, real_crs}
use datacube_ows.Wms.Times.{Calendar, get_times}
use datacube_ows.Wms.Params.{
  WmsError, wms_exception, no_code, invalid_crs, invalid_format, invalid_point, unpublished_crs,
  attribute_error, value_error, Args, arg_or, time_result, checked_arg, LayerW, get_layer_from_arg,
  StyleCalls, single_style_from_args,
}
use datacube_ows.Wms.Geobox.{CrsCalls, GeoBox, geobox_xy, get_geobox, polygon_of, zoom_factor}

abbrev pub crs_arg : String → String
crs_arg version = if version == "1.1.1" then "srs" else "crs"

abbrev pub crs_locator : String → String
crs_locator version = if version == "1.1.1" then "srs parameter" else "crs parameter"

-- `int(text)`
unfoldable pub int_of : String → Result WmsError ℤ
int_of text = or_raise (py_int (codes text)) value_error

-- The keys of a dictionary.
abbrev pub crs_names : Dict String CrsDef → List String
crs_names published = map (λ p. p.0) published

-- The names of the coordinates of a pixel; a missing one is reported at the first.
abbrev pub coord_names : String → String × String
coord_names version = if version == "1.1.1" then ("x", "y") else ("i", "j")

abbrev pub coord_locator : String → String
coord_locator version = if version == "1.1.1" then "x parameter" else "i parameter"

module _ (fl : Floats) (C S P : Type 0) where
  open fl use {F}

  pub record ConfigW : Type 0 where
    pub published : Dict String CrsDef
    pub layer_index : Dict String (LayerW fl S)
    pub wms_max_width : ℤ
    pub wms_max_height : ℤ

  -- What the code calls. The bands of a style are those of `odc_needed_bands`.
  pub record CallsW : Type 0 where
    pub crs : CrsCalls fl C
    pub style : StyleCalls fl S
    pub calendar : Calendar P
    pub needed_bands : S → List String

  pub record GetParameters : Type 0 where
    pub version : String
    pub crsid : String
    pub crs : C
    pub layer : LayerW fl S
    pub geometry : List (F × F)
    pub geobox : GeoBox fl C
    pub times : List ℕ

  -- `cfg.crs`
  unfoldable pub config_crs : CallsW → ConfigW → String → Result WmsError C
  config_crs calls cfg crsid = do
    def ← or_raise (lookup crsid cfg.published) (unpublished_crs crsid)
    ok (calls.crs.new_crs (real_crs crsid def.alias_of))

  -- `GetParameters.__init__`, for the name of the argument with the layer.
  unfoldable pub get_parameters : CallsW → ConfigW → String → Args → Result WmsError GetParameters
  unfolding config_crs
  get_parameters calls cfg layer_arg args = do
    version ← checked_arg args "version" no_code "version parameter" false ("1.1.1" ∷ "1.3.0" ∷ [])
    crsid ←
        checked_arg args (crs_arg version) invalid_crs (crs_locator version) false
          (crs_names cfg.published)
    crs ← config_crs calls cfg crsid
    layer ← get_layer_from_arg fl S cfg.layer_index args layer_arg
    box ← geobox_xy fl C calls.crs cfg.published args crs
    geobox ← get_geobox fl C calls.crs cfg.published args crs
    let polygon = polygon_of fl C box
    let moved = not (calls.crs.same_crs geobox.crs crs)
    times ← time_result (get_times calls.calendar layer.times args)
    ok (record {
      version = version;
      crsid = crsid;
      crs = if moved then geobox.crs else crs;
      layer = layer;
      geometry = if moved then calls.crs.polygon_to_crs crs geobox.crs polygon else polygon;
      geobox = geobox;
      times = times;
    })

  pub record Resources : Type 0 where
    pub native_crs : C
    pub native_resolution : F × F
    pub geobox : GeoBox fl C
    pub n_dates : ℕ
    pub request_bands : List String

  pub record GetMapParameters : Type 0 where
    pub base : GetParameters
    pub format : String
    pub style : S
    pub zf : F
    pub ows_stats : Bool
    pub resources : Resources

  -- `RequestScale(...)`
  pub resources_of : CallsW → GetParameters → S → Resources
  resources_of calls base style = record {
    native_crs = calls.crs.new_crs base.layer.native_crs;
    native_resolution = (base.layer.resolution_x, base.layer.resolution_y);
    geobox = base.geobox;
    n_dates = length base.times;
    request_bands = calls.needed_bands style;
  }

  -- `method_specific_init` of a map. Without a style its bands could not be asked for.
  unfoldable pub map_init :
      CallsW → ConfigW → Args → GetParameters → Result WmsError GetMapParameters
  unfolding resources_of
  map_init calls cfg args base = do
    format ← checked_arg args "format" invalid_format "format parameter" true ("image/png" ∷ [])
    chosen ← single_style_from_args fl S calls.style base.layer args true
    raise_if (ltb_ℤ cfg.wms_max_width base.geobox.width) (wms_exception no_code "Width parameter")
    raise_if (ltb_ℤ cfg.wms_max_height base.geobox.height)
        (wms_exception no_code "Height parameter")
    zf ← zoom_factor fl C calls.crs cfg.published args base.crs
    style ← or_raise chosen attribute_error
    ok (record {
      base = base;
      format = format;
      style = style;
      zf = zf;
      ows_stats = not (arg_or "" "ows_stats" args == "");
      resources = resources_of calls base style;
    })

  unfoldable pub get_map_parameters : CallsW → ConfigW → Args → Result WmsError GetMapParameters
  get_map_parameters calls cfg args =
      get_parameters calls cfg "layers" args >>= λ base. map_init calls cfg args base

  pub record GetFeatureInfoParameters : Type 0 where
    pub base : GetParameters
    pub format : String
    pub i : ℤ
    pub j : ℤ
    pub style : Option S

  -- `method_specific_init` of feature info
  unfoldable pub feature_init :
      CallsW → Args → GetParameters → Result WmsError GetFeatureInfoParameters
  feature_init calls args base = do
    format ←
        checked_arg args "info_format" invalid_format "info_format parameter" true
          ("application/json" ∷ "text/html" ∷ [])
    i_text ←
        or_raise (lookup (coord_names base.version).0 args)
          (wms_exception invalid_point (coord_locator base.version))
    j_text ←
        or_raise (lookup (coord_names base.version).1 args)
          (wms_exception invalid_point (coord_locator base.version))
    i ← int_of i_text
    j ← int_of j_text
    style ← single_style_from_args fl S calls.style base.layer args false
    ok (record { base = base; format = format; i = i; j = j; style = style })

  unfoldable pub get_feature_info_parameters :
      CallsW → ConfigW → Args → Result WmsError GetFeatureInfoParameters
  get_feature_info_parameters calls cfg args =
      get_parameters calls cfg "query_layers" args >>= λ base. feature_init calls args base

  pub record GetLegendGraphicParameters : Type 0 where
    pub layer : LayerW fl S
    pub format : String
    pub style : Option S
    pub times : List ℕ

  unfoldable pub get_legend_graphic_parameters :
      CallsW → ConfigW → Args → Result WmsError GetLegendGraphicParameters
  get_legend_graphic_parameters calls cfg args = do
    layer ← get_layer_from_arg fl S cfg.layer_index args "layer"
    format ← checked_arg args "format" invalid_format "format parameter" true ("image/png" ∷ [])
    style ← single_style_from_args fl S calls.style layer args true
    times ← time_result (get_times calls.calendar layer.times args)
    ok (record { layer = layer; format = format; style = style; times = times })
