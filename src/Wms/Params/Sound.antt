-- ===== src/Wms/Params/Sound.antt =====
-- What a WMS request that is accepted asks for.
use datacube_ows.Base.{
  ◌≡◌, ◌⊎◌, true, false, Option, none, some, Result, [], ◌∷◌, String, ok, or_raise, >>=-eq-ok,
  ok_injective, raise_if-ok, lookup, contains, arith, string_eq, subst,
}
use datacube_ows.Base.Int.{ltb_ℤ, int_eq}
use datacube_ows.Base.Float.{Floats}
use datacube_ows.Wms.Params.{
  WmsError, Args, checked_arg, single_style_from_args, invalid_format, invalid_point, no_code,
  attribute_error, wms_exception,
}
use datacube_ows.Wms.Params.Chosen.{Custom, Named, single_style_from_args_iff}
use datacube_ows.Wms.Geobox.{zoom_factor}
use datacube_ows.Wms.Params.Requests.{
  ConfigW, CallsW, GetParameters, GetMapParameters, get_parameters, map_init, get_map_parameters,
  GetFeatureInfoParameters, coord_names, coord_locator, int_of, feature_init,
  get_feature_info_parameters,
}
use datacube_ows.Wms.Params.Accepted.{checked_arg-contains, SoundBase, get_parameters-SoundBase}

present_style :
    {S : Type 0} (chosen : Option S) (style : S) (r : Result WmsError (Option S))
    → or_raise chosen attribute_error ≡ ok style
    → r ≡ ok chosen
    → r ≡ ok (some style)
present_style none style r present styled = absurd (ground arith)
present_style (some given) style r present styled = ground arith

or_raise-some :
    {A : Type 0} (m : Option A) (e : WmsError) (a : A) → or_raise m e ≡ ok a → m ≡ some a
or_raise-some none e a h = absurd (ground arith)
or_raise-some (some b) e a h = ground arith

module _ (fl : Floats) {C S P : Type 0} (calls : CallsW fl C S P) (cfg : ConfigW fl C S P)
    (args : Args) where
  abbrev pub SoundMap : GetMapParameters fl C S P → Type 0
  SoundMap r =
      SoundBase fl calls cfg args "layers" r.base
      × (contains r.format ("image/png" ∷ []) ≡ true)
      × (ltb_ℤ cfg.wms_max_width r.base.geobox.width ≡ false)
      × (ltb_ℤ cfg.wms_max_height r.base.geobox.height ≡ false)
      × (Custom fl calls.style r.base.layer args (some r.style)
          ⊎ Named fl calls.style r.base.layer args true (some r.style))

  map_init-SoundMap :
      (base : GetParameters fl C S P) (r : GetMapParameters fl C S P)
      → SoundBase fl calls cfg args "layers" base
      → map_init fl C S P calls cfg args base ≡ ok r
      → SoundMap r
  unfolding map_init
  map_init-SoundMap base r sound h =
      let (format, formatted, h1) =
        >>=-eq-ok
          (checked_arg args "format" invalid_format "format parameter" true ("image/png" ∷ [])) _
          h in
      let (chosen, styled, h2) =
        >>=-eq-ok (single_style_from_args fl S calls.style base.layer args true) _ h1 in
      let (narrow, h3) =
        raise_if-ok (ltb_ℤ cfg.wms_max_width base.geobox.width)
          (wms_exception no_code "Width parameter") _ h2 in
      let (low, h4) =
        raise_if-ok (ltb_ℤ cfg.wms_max_height base.geobox.height)
          (wms_exception no_code "Height parameter") _ h3 in
      let (zf, _, h5) = >>=-eq-ok (zoom_factor fl C calls.crs cfg.published args base.crs) _ h4 in
      let (style, present, h6) = >>=-eq-ok (or_raise chosen attribute_error) _ h5 in
      subst SoundMap (ok_injective h6) (
        sound,
        checked_arg-contains args "format" invalid_format "format parameter" true "image/png" []
            format formatted,
        narrow,
        low,
        (single_style_from_args_iff fl calls.style base.layer args true (some style)).0 (
            present_style chosen style
              (single_style_from_args fl S calls.style base.layer args true) present styled),
      )

  -- A map request that is accepted has a supported version, a published coordinate system, a layer of
  -- the configuration, times that the layer has, a format that is supported, a size that is not 0 and
  -- within the limits, and a style that is either made of an expression, where the layer allows it, or
  -- one of the layer.
  pub map_request_sound :
      (r : GetMapParameters fl C S P)
      → get_map_parameters fl C S P calls cfg args ≡ ok r
      → SoundMap r
  unfolding get_map_parameters
  map_request_sound r h =
      let (base, parsed, h1) = >>=-eq-ok (get_parameters fl C S P calls cfg "layers" args) _ h in
      map_init-SoundMap base r (get_parameters-SoundBase fl calls cfg args "layers" base parsed) h1

  abbrev pub SoundFeature : GetFeatureInfoParameters fl C S P → Type 0
  SoundFeature r =
      SoundBase fl calls cfg args "query_layers" r.base
      × (contains r.format ("application/json" ∷ "text/html" ∷ []) ≡ true)
      × ((text : String) × (lookup (coord_names r.base.version).0 args ≡ some text)
          × (int_of text ≡ ok r.i))
      × ((text : String) × (lookup (coord_names r.base.version).1 args ≡ some text)
          × (int_of text ≡ ok r.j))
      × (Custom fl calls.style r.base.layer args r.style
          ⊎ Named fl calls.style r.base.layer args false r.style)

  feature_init-SoundFeature :
      (base : GetParameters fl C S P) (r : GetFeatureInfoParameters fl C S P)
      → SoundBase fl calls cfg args "query_layers" base
      → feature_init fl C S P calls args base ≡ ok r
      → SoundFeature r
  unfolding feature_init
  feature_init-SoundFeature base r sound h =
      let missing = wms_exception invalid_point (coord_locator base.version) in
      let (format, formatted, h1) =
        >>=-eq-ok
          (checked_arg args "info_format" invalid_format "info_format parameter" true
            ("application/json" ∷ "text/html" ∷ []))
          _ h in
      let (i_text, i_given, h2) =
        >>=-eq-ok (or_raise (lookup (coord_names base.version).0 args) missing) _ h1 in
      let (j_text, j_given, h3) =
        >>=-eq-ok (or_raise (lookup (coord_names base.version).1 args) missing) _ h2 in
      let (i, i_read, h4) = >>=-eq-ok (int_of i_text) _ h3 in
      let (j, j_read, h5) = >>=-eq-ok (int_of j_text) _ h4 in
      let (style, styled, h6) =
        >>=-eq-ok (single_style_from_args fl S calls.style base.layer args false) _ h5 in
      subst SoundFeature (ok_injective h6) (
        sound,
        checked_arg-contains args "info_format" invalid_format "info_format parameter" true
            "application/json" ("text/html" ∷ []) format formatted,
        (
          i_text,
          or_raise-some (lookup (coord_names base.version).0 args) missing i_text i_given,
          i_read,
        ),
        (
          j_text,
          or_raise-some (lookup (coord_names base.version).1 args) missing j_text j_given,
          j_read,
        ),
        (single_style_from_args_iff fl calls.style base.layer args false style).0 styled,
      )

  -- A request for feature info that is accepted has a supported version, a published coordinate system,
  -- a layer of the configuration, times that the layer has, a size that is not 0, a format that is
  -- supported, the two coordinates that its version names, as integers, and the style that it asks for,
  -- if any.
  pub feature_request_sound :
      (r : GetFeatureInfoParameters fl C S P)
      → get_feature_info_parameters fl C S P calls cfg args ≡ ok r
      → SoundFeature r
  unfolding get_feature_info_parameters
  feature_request_sound r h =
      let (base, parsed, h1) =
        >>=-eq-ok (get_parameters fl C S P calls cfg "query_layers" args) _ h in
      feature_init-SoundFeature base r
        (get_parameters-SoundBase fl calls cfg args "query_layers" base parsed) h1
