-- ===== src/Wms/Params/Accepted.antt =====
-- What every WMS request that is accepted asks for (class GetParameters of datacube_ows/wms_utils.py).
use datacube_ows.Base.{
  ◌≡◌, ◌≢◌, ◌⊎◌, inl, inr, refl, Bool, true, false, some, List, Result, err, [], ◌∷◌, String, ok,
  >>=-eq-ok, ok_injective, raise_if-ok, Dict, lookup, contains, All, arith, string_eq, Option-cases,
  Result-cases, subst,
}
use datacube_ows.Base.Int.{ℤ, pos, int_eq}
use datacube_ows.Base.Text.{split}
use datacube_ows.Base.Float.{Floats}
use datacube_ows.Tiles.Sets.{Box}
use datacube_ows.Config.Crs.{CrsDef}
use datacube_ows.Wms.Times.{TimeError, get_times, get_arg}
use datacube_ows.Wms.Times.Valid.{Has, get_arg-contains, get_times-Has}
use datacube_ows.Wms.Params.{
  ErrorCode, Args, arg_or, arg_with, time_result, checked_arg, before_double, LayerW,
  get_layer_from_arg, invalid_crs, no_code, wms_exception,
}
use datacube_ows.Wms.Geobox.{
  CrsCalls, GeoBox, int_of_arg, geobox_xy, get_geobox, create_geobox, pacific_box, no_area,
}
use datacube_ows.Wms.Params.Requests.{
  ConfigW, CallsW, GetParameters, config_crs, get_parameters, crs_names, crs_arg, crs_locator,
}

pub checked_arg-contains :
    (args : Args) (name : String) (code : ErrorCode) (locator : String) (lowered : Bool)
    (p : String) (ps : List String) (v : String)
    → checked_arg args name code locator lowered (p ∷ ps) ≡ ok v
    → contains v (p ∷ ps) ≡ true
unfolding checked_arg arg_with
checked_arg-contains args name code locator lowered p ps v h =
    elim (Result-cases (get_arg args name lowered (p ∷ ps))) [
      | inr failed ↦ absurd (ground arith)
      | inl (w, read) ↦ get_arg-contains args name lowered p ps v (ground arith)
    ]

time_result-ok : {A : Type 0} (r : Result TimeError A) (a : A) → time_result r ≡ ok a → r ≡ ok a
time_result-ok (ok b) a h = ground arith
time_result-ok (err e) a h = absurd (ground arith)

one-cases :
    (texts : List String)
    → ((text : String) × (texts ≡ text ∷ []))
      ⊎ ((texts ≡ [])
          ⊎ ((a : String) × (b : String) × (more : List String) × (texts ≡ a ∷ b ∷ more)))
one-cases [] = inr (inl refl)
one-cases (a ∷ []) = inl (a, refl)
one-cases (a ∷ b ∷ more) = inr (inr (a, b, more, refl))

module _ (fl : Floats) where
  -- The layer that is the only one in an argument, its name up to a double underscore.
  abbrev pub AskedLayer :
      {S : Type 0} → Dict String (LayerW fl S) → Args → String → LayerW fl S → Type 0
  AskedLayer layer_index args argname layer =
      (text : String) × (split b',' (arg_or "" argname args) ≡ text ∷ [])
      × (lookup (before_double text) layer_index ≡ some layer)

  get_layer_from_arg-AskedLayer :
      {S : Type 0} (layer_index : Dict String (LayerW fl S)) (args : Args) (argname : String)
      (layer : LayerW fl S)
      → get_layer_from_arg fl S layer_index args argname ≡ ok layer
      → AskedLayer layer_index args argname layer
  unfolding get_layer_from_arg
  get_layer_from_arg-AskedLayer layer_index args argname layer h =
      elim (one-cases (split b',' (arg_or "" argname args))) [
        | inl (text, one) ↦ (text, one, ground arith)
        | inr none_or_more ↦ elim none_or_more [
          | inl empty ↦ absurd (ground arith)
          | inr (a, b, texts, more) ↦ absurd (ground arith)
        ]
      ]

  create_geobox-nonzero :
      {C : Type 0} (crs : C) (box : Box fl) (width height : ℤ) (g : GeoBox fl C)
      → create_geobox fl C crs box width height ≡ ok g
      → (g.width ≢ pos 0) × (g.height ≢ pos 0)
  unfolding create_geobox
  create_geobox-nonzero crs (a, b, c, d) width height g h = (
    λ e. ground (arith, int_eq.beq_iff width (pos 0)),
    λ e. ground (arith, int_eq.beq_iff height (pos 0)),
  )

  get_geobox-nonzero :
      (C : Type 0) (calls : CrsCalls fl C) (published : Dict String CrsDef) (args : Args) (crs : C)
      (g : GeoBox fl C)
      → get_geobox fl C calls published args crs ≡ ok g
      → (g.width ≢ pos 0) × (g.height ≢ pos 0)
  unfolding get_geobox
  get_geobox-nonzero C calls published args crs g h =
      let (width, _, h1) = >>=-eq-ok (int_of_arg args "width") _ h in
      let (height, _, h2) = >>=-eq-ok (int_of_arg args "height") _ h1 in
      let (box, _, h3) = >>=-eq-ok (geobox_xy fl C calls published args crs) _ h2 in
      let (_, made) = raise_if-ok (no_area fl C box) (wms_exception no_code "") _ h3 in
      let placed = pacific_box fl C calls crs box in
      create_geobox-nonzero placed.0 placed.1 width height g made

  module _ {C S P : Type 0} (calls : CallsW fl C S P) (cfg : ConfigW fl C S P) (args : Args) where
    -- A supported version, a published coordinate system, the layer that is asked for, a size that is
    -- not 0 and times that the layer has.
    abbrev pub SoundBase : String → GetParameters fl C S P → Type 0
    SoundBase layer_arg b =
        (contains b.version ("1.1.1" ∷ "1.3.0" ∷ []) ≡ true)
        × ((def : CrsDef) × (lookup b.crsid cfg.published ≡ some def))
        × AskedLayer cfg.layer_index args layer_arg b.layer
        × (b.geobox.width ≢ pos 0)
        × (b.geobox.height ≢ pos 0)
        × All (Has calls.calendar b.layer.times) b.times

    config_crs-published :
        (crsid : String) (crs : C)
        → config_crs fl C S P calls cfg crsid ≡ ok crs
        → (def : CrsDef) × (lookup crsid cfg.published ≡ some def)
    unfolding config_crs
    config_crs-published crsid crs h = elim (Option-cases (lookup crsid cfg.published)) [
      | inl absent ↦ absurd (ground arith)
      | inr known ↦ known
    ]

    pub get_parameters-SoundBase :
        (layer_arg : String) (b : GetParameters fl C S P)
        → get_parameters fl C S P calls cfg layer_arg args ≡ ok b
        → SoundBase layer_arg b
    unfolding get_parameters
    get_parameters-SoundBase layer_arg b h =
        let (version, versioned, h1) =
          >>=-eq-ok
            (checked_arg args "version" no_code "version parameter" false ("1.1.1" ∷ "1.3.0" ∷ []))
            _ h in
        let (crsid, _, h2) =
          >>=-eq-ok
            (checked_arg args (crs_arg version) invalid_crs (crs_locator version) false
              (crs_names cfg.published))
            _ h1 in
        let (crs, published, h3) = >>=-eq-ok (config_crs fl C S P calls cfg crsid) _ h2 in
        let (layer, named, h4) =
          >>=-eq-ok (get_layer_from_arg fl S cfg.layer_index args layer_arg) _ h3 in
        let (box, _, h5) = >>=-eq-ok (geobox_xy fl C calls.crs cfg.published args crs) _ h4 in
        let (geobox, boxed, h6) =
          >>=-eq-ok (get_geobox fl C calls.crs cfg.published args crs) _ h5 in
        let (times, timed, h7) =
          >>=-eq-ok (time_result (get_times calls.calendar layer.times args)) _ h6 in
        let nonzero = get_geobox-nonzero C calls.crs cfg.published args crs geobox boxed in
        let read = time_result-ok (get_times calls.calendar layer.times args) times timed in
        subst (SoundBase layer_arg) (ok_injective h7) (
          checked_arg-contains args "version" no_code "version parameter" false "1.1.1"
              ("1.3.0" ∷ []) version versioned,
          config_crs-published crsid crs published,
          get_layer_from_arg-AskedLayer cfg.layer_index args layer_arg layer named,
          nonzero.0,
          nonzero.1,
          get_times-Has calls.calendar layer.times args times read,
        )
