-- ===== src/Protocol/Tests.antt =====
-- Runs of version negotiation on the versions that the server supports.
use datacube_ows.Protocol.Routing.{
  Args, ogc_impl, ogc_svc_impl, ows_supported, answered, get_map, refusal,
  invalid_service_or_request,
}
use datacube_ows.Protocol.Routing.Dispatch.{service_of, ogc_impl-activated}
use datacube_ows.Base.{
  Dict, ◌==◌, string_eq, true, ok, err, ◌≡◌, refl, List, [], ◌∷◌, some, none, String, arith, ◌≢◌, ℕ,
}
use datacube_ows.Base.Int.{pos}
use datacube_ows.Protocol.{
  Router, ExceptionClass, SupportedSvcVersion, sort_versions, negotiated_version,
}
use datacube_ows.Protocol.Negotiation.{OneOf, Best, asked, negotiated_version-Best}
use text.Mathlib.TextEquality.{eq_iff}

abbrev wcs : ℕ → ℕ → Router → ExceptionClass → SupportedSvcVersion
wcs major minor router exception_class = record {
  service = "wcs";
  version_parts = pos major ∷ pos minor ∷ pos 0 ∷ [];
  router = router;
  exception_class = exception_class;
}

abbrev wcs1 : SupportedSvcVersion
wcs1 = wcs 1 0 Router.handle_wcs1 ExceptionClass.wcs1_exception

abbrev wcs2 : SupportedSvcVersion
wcs2 = wcs 2 0 Router.handle_wcs2 ExceptionClass.wcs2_exception

abbrev wcs21 : SupportedSvcVersion
wcs21 = wcs 2 1 Router.handle_wcs2 ExceptionClass.wcs2_exception

abbrev versions : List SupportedSvcVersion
versions = wcs2 ∷ wcs21 ∷ wcs1 ∷ []

patch_level : negotiated_version (sort_versions versions) (some "2.0.1") ≡ some wcs2
unfolding negotiated_version sort_versions
patch_level = refl

too_old : negotiated_version (sort_versions versions) (some "0.9b.7") ≡ some wcs1
unfolding negotiated_version sort_versions
too_old = refl

newest : negotiated_version (sort_versions versions) none ≡ some wcs21
unfolding negotiated_version sort_versions
newest = refl

not_empty : ◌≢◌ {A = String} "2.0.1" ""
not_empty = ground (arith, eq_iff "2.0.1" "")

negotiated_version-Best_example :
    (w : SupportedSvcVersion) × (negotiated_version (sort_versions versions) (some "2.0.1")
      ≡ some w)
    × OneOf w versions
    × Best (asked "2.0.1") versions w
negotiated_version-Best_example = negotiated_version-Best wcs2 (wcs21 ∷ wcs1 ∷ []) "2.0.1" not_empty

abbrev request_args : Dict String (List String)
request_args = ("LAYERS", "a" ∷ "b" ∷ []) ∷ ("Request", "GetMap" ∷ []) ∷ ("layers", "c" ∷ []) ∷ []

abbrev get_map_args : Args
get_map_args = ("layers", "c") ∷ ("request", "GetMap") ∷ []

only_wms : ogc_impl ows_supported (λ s. s == "wms") get_map_args ≡ ok (answered get_map)
unfolding ogc_impl ogc_svc_impl negotiated_version
only_wms = refl

no_wcs :
    ogc_impl ows_supported (λ s. s == "wms") (("request", "GetCoverage") ∷ [])
    ≡ err (refusal ExceptionClass.wcs1_exception invalid_service_or_request)
unfolding ogc_impl ogc_svc_impl
no_wcs = refl

ogc_impl-activated_example : (service_of get_map == "wms") ≡ true
ogc_impl-activated_example =
    ogc_impl-activated ows_supported (λ s. s == "wms") get_map_args get_map
      ((refl, tt), ((refl, tt), ((refl, (refl, (refl, tt))), tt))) only_wms
