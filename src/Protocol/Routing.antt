-- ===== src/Protocol/Routing.antt =====
-- Routing: the arguments of a request, and which handler answers it (`ogc_impl` and `ogc_svc_impl` of
-- datacube_ows/ogc.py, `lower_get_args` of datacube_ows/http_utils.py, and the `handle_` functions of
-- datacube_ows/wms.py, datacube_ows/wmts.py, datacube_ows/wcs1.py and datacube_ows/wcs2.py). What the
-- headers add to the arguments plays no part in it.
pub mod Dispatch
use datacube_ows.Base.Int.{pos}
use datacube_ows.Base.{
  ℕ, Bool, true, false, not, Option, none, some, List, [], ◌∷◌, String, ◌==◌, string_eq,
  if◌then◌else◌, Result, ok, err, ◌>>=◌, ◌>>◌, raise_if, or_raise, Dict, lookup, insert, contains,
}
use datacube_ows.Base.Text.{upper, lower}
use datacube_ows.Protocol.{
  Router, handle_wms, handle_wmts, handle_wcs1, handle_wcs2, ExceptionClass, SupportedSvcVersion,
  sort_versions, negotiated_version, head_of,
}

abbrev pub Args : Type 0
Args = Dict String String

-- The inner loop of `lower_get_args`, and that function: the last value of a key counts.
pub put_all : String → List String → Args → Args
put_all k [] d = d
put_all k (v ∷ vs) d = put_all k vs (insert k v d)

pub put_keys : Dict String (List String) → Args → Args
unfolding put_all
put_keys [] d = d
put_keys ((k, vs) ∷ request_args) d = put_keys request_args (put_all (lower k) vs d)

pub lower_get_args : Dict String (List String) → Args
unfolding put_keys
lower_get_args request_args = put_keys request_args []

-- `args.get(k, default)`
abbrev pub arg_or : String → String → Args → String
arg_or k default args = elim (lookup k args) [ none ↦ default | some v ↦ v ]

-- The functions that the handlers call.
pub data Operation : Type 0 where
  wms_capabilities get_map feature_info legend_graphic : Operation
  wmts_capabilities get_tile get_feature_info : Operation
  wcs1_capabilities desc_coverages1 get_coverage1 : Operation
  wcs2_capabilities desc_coverages2 get_coverage2 : Operation

pub data Problem : Type 0 where
  no_operation unrecognised_operation : Problem
  invalid_service_or_request invalid_service service_mismatch : Problem

-- An OGC exception, by its class.
pub record Refusal : Type 0 where
  pub exception_class : ExceptionClass
  pub problem : Problem

-- One `elif` after the other: the operations of a handler by their names.
pub dispatch : ExceptionClass → Dict String Operation → Args → Result Refusal Operation
dispatch cls operations args =
    let operation = upper (arg_or "request" "" args) in
    if operation == ""
    then err (record { exception_class = cls; problem = no_operation })
    else or_raise (lookup operation operations)
        (record { exception_class = cls; problem = unrecognised_operation })

abbrev pub wms_operations : Dict String Operation
wms_operations =
    ("GETCAPABILITIES", wms_capabilities)
    ∷ ("GETMAP", get_map)
    ∷ ("GETFEATUREINFO", feature_info)
    ∷ ("GETLEGENDGRAPHIC", legend_graphic)
    ∷ []

abbrev pub wmts_operations : Dict String Operation
wmts_operations =
    ("GETCAPABILITIES", wmts_capabilities)
    ∷ ("GETTILE", get_tile)
    ∷ ("GETFEATUREINFO", get_feature_info)
    ∷ []

abbrev pub wcs1_operations : Dict String Operation
wcs1_operations =
    ("GETCAPABILITIES", wcs1_capabilities)
    ∷ ("DESCRIBECOVERAGE", desc_coverages1)
    ∷ ("GETCOVERAGE", get_coverage1)
    ∷ []

abbrev pub wcs2_operations : Dict String Operation
wcs2_operations =
    ("GETCAPABILITIES", wcs2_capabilities)
    ∷ ("DESCRIBECOVERAGE", desc_coverages2)
    ∷ ("GETCOVERAGE", get_coverage2)
    ∷ []

-- The `handle_` functions.
pub route : Router → Args → Result Refusal Operation
unfolding dispatch
route handle_wms args = dispatch ExceptionClass.wms_exception wms_operations args
route handle_wmts args = dispatch ExceptionClass.wmts_exception wmts_operations args
route handle_wcs1 args = dispatch ExceptionClass.wcs1_exception wcs1_operations args
route handle_wcs2 args = dispatch ExceptionClass.wcs2_exception wcs2_operations args

-- `class SupportedSvc`: its versions are sorted, and the constructor asserts that there is one.
pub record SupportedSvc : Type 0 where
  pub service : String
  pub versions : List SupportedSvcVersion
  pub default_exception_class : ExceptionClass

pub new_service : List SupportedSvcVersion → Option ExceptionClass → Option SupportedSvc
unfolding sort_versions
new_service versions default = elim (head_of (sort_versions versions)) [
  | none ↦ none
  | some first ↦ some (record {
    service = first.service;
    versions = sort_versions versions;
    default_exception_class = elim default [ none ↦ first.exception_class | some c ↦ c ];
  })
]

abbrev pub refusal : ExceptionClass → Problem → Refusal
refusal cls p = record { exception_class = cls; problem = p }

-- `ogc_svc_impl`; `activated` is what the configuration says of a service.
unfoldable pub ogc_svc_impl :
    Dict String SupportedSvc → (String → Bool) → String → Args → Result Refusal Operation
unfolding route
ogc_svc_impl supported activated svc args = do
  svc_support ←
      or_raise (lookup svc supported) (refusal ExceptionClass.wms_exception invalid_service)
  let cls = svc_support.default_exception_class
  raise_if (not (activated svc_support.service)) (refusal cls invalid_service_or_request)
  raise_if (not (upper (arg_or "service" svc args) == upper svc_support.service))
      (refusal cls service_mismatch)
  version ←
      or_raise (negotiated_version svc_support.versions (lookup "version" args))
        (refusal cls invalid_service)
  route version.router args

pub data Answer : Type 0 where
  index_page : Answer
  answered : Operation → Answer

abbrev pub answer : Result Refusal Operation → Result Refusal Answer
answer (ok op) = ok (answered op)
answer (err r) = err r

-- The `try` block of `ogc_impl`: the service is known by its operation.
abbrev pub by_operation : Dict String SupportedSvc → (String → Bool) → Args → Result Refusal Answer
by_operation supported activated args =
    let op = upper (arg_or "request" "" args) in
    if contains op ("GETMAP" ∷ "GETFEATUREINFO" ∷ "GETLEGENDGRAPHIC" ∷ [])
    then answer (ogc_svc_impl supported activated "wms" args)
    else if contains op ("DESCRIBECOVERAGE" ∷ "GETCOVERAGE" ∷ [])
    then answer (ogc_svc_impl supported activated "wcs" args)
    else if op == ""
    then ok index_page
    else err (refusal ExceptionClass.wms_exception invalid_service_or_request)

-- `ogc_impl`
unfoldable pub ogc_impl : Dict String SupportedSvc → (String → Bool) → Args → Result Refusal Answer
ogc_impl supported activated args =
    let service = upper (arg_or "service" "" args) in
    if service == ""
    then by_operation supported activated args
    else answer (ogc_svc_impl supported activated (lower service) args)

abbrev version_of : String → ℕ → ℕ → Router → ExceptionClass → SupportedSvcVersion
version_of service major minor router cls = record {
  service = service;
  version_parts = pos major ∷ pos minor ∷ pos 0 ∷ [];
  router = router;
  exception_class = cls;
}

abbrev service_with : String → ExceptionClass → List SupportedSvcVersion → SupportedSvc
service_with service cls versions = record {
  service = service;
  versions = versions;
  default_exception_class = cls;
}

-- `OWS_SUPPORTED`
abbrev pub ows_supported : Dict String SupportedSvc
ows_supported =
    (
      "wms",
      service_with "wms" ExceptionClass.wms_exception
          (version_of "wms" 1 3 handle_wms ExceptionClass.wms_exception ∷ []),
    )
    ∷ (
      "wmts",
      service_with "wmts" ExceptionClass.wmts_exception
          (version_of "wmts" 1 0 handle_wmts ExceptionClass.wmts_exception ∷ []),
    )
    ∷ (
      "wcs",
      service_with "wcs" ExceptionClass.wcs1_exception (
          version_of "wcs" 1 0 handle_wcs1 ExceptionClass.wcs1_exception
          ∷ version_of "wcs" 2 0 handle_wcs2 ExceptionClass.wcs2_exception
          ∷ version_of "wcs" 2 1 handle_wcs2 ExceptionClass.wcs2_exception
          ∷ []),
    )
    ∷ []
