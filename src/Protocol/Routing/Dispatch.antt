-- ===== src/Protocol/Routing/Dispatch.antt =====
-- Which handler a request reaches, and which of several values of an argument counts.
use datacube_ows.Base.{
  raise_if-ok, ◌⊎◌, if-cases, not, raise_if, or_raise, ◌≡◌, refl, ap, ◌∙◌, inl, inr, true, false,
  Bool, Option, none, some, List, [], ◌∷◌, String, string_eq, ◌==◌, if◌then◌else◌, Result, ok, err,
  ◌>>=◌, ◌>>◌, All, Dict, lookup, insert, lookup-All, lookup-insert, >>=-eq-ok, arith,
}
use datacube_ows.Base.Text.{upper, lower}
use datacube_ows.Protocol.{
  Router, handle_wms, handle_wmts, handle_wcs1, handle_wcs2, negotiated_version,
}
use datacube_ows.Protocol.Members.{negotiated_version-All}
use datacube_ows.Protocol.Routing.{
  index_page, by_operation, answer, Refusal, refusal, invalid_service, invalid_service_or_request,
  service_mismatch, arg_or, Args, put_all, put_keys, lower_get_args, Operation, wms_capabilities,
  get_map, feature_info, legend_graphic, wmts_capabilities, get_tile, get_feature_info,
  wcs1_capabilities, desc_coverages1, get_coverage1, wcs2_capabilities, desc_coverages2,
  get_coverage2, dispatch, route, SupportedSvc, ogc_svc_impl, ogc_impl, answered,
}

-- The last of some values, or else the one before.
abbrev last_of : Option String → List String → Option String
last_of before [] = before
last_of before (v ∷ vs) = last_of (some v) vs

-- The last value, in the order of the request, of the arguments that spell a key in some case.
abbrev pub last_value : Option String → String → Dict String (List String) → Option String
last_value before key [] = before
last_value before key ((k, vs) ∷ request_args) =
    last_value (if key == lower k then last_of before vs else before) key request_args

put_all-lookup :
    (key k : String) (vs : List String) (d : Args)
    → lookup key (put_all k vs d) ≡ (if key == k then last_of (lookup key d) vs else lookup key d)
unfolding put_all
put_all-lookup key k [] d = ground arith
put_all-lookup key k (v ∷ vs) d =
    ground (arith, put_all-lookup key k vs (insert k v d), lookup-insert key k v d)

put_keys-lookup :
    (key : String) (request_args : Dict String (List String)) (d : Args)
    → lookup key (put_keys request_args d) ≡ last_value (lookup key d) key request_args
unfolding put_keys
put_keys-lookup key [] d = refl
put_keys-lookup key ((k, vs) ∷ request_args) d =
    put_keys-lookup key request_args (put_all (lower k) vs d)
    ∙ ap (λ o. last_value o key request_args) (put_all-lookup key (lower k) vs d)

-- The names of arguments are read without regard to case, and of all values that a request gives for
-- a name, in any spelling, the last one counts; a name that it does not give has no value.
pub lower_get_args-last :
    (key : String) (request_args : Dict String (List String))
    → lookup key (lower_get_args request_args) ≡ last_value none key request_args
unfolding lower_get_args
lower_get_args-last key request_args = put_keys-lookup key request_args []

-- The services that the operations, and the handlers, belong to.
abbrev pub service_of : Operation → String
service_of wms_capabilities = "wms"
service_of get_map = "wms"
service_of feature_info = "wms"
service_of legend_graphic = "wms"
service_of wmts_capabilities = "wmts"
service_of get_tile = "wmts"
service_of get_feature_info = "wmts"
service_of wcs1_capabilities = "wcs"
service_of desc_coverages1 = "wcs"
service_of get_coverage1 = "wcs"
service_of wcs2_capabilities = "wcs"
service_of desc_coverages2 = "wcs"
service_of get_coverage2 = "wcs"

abbrev pub handler_service : Router → String
handler_service handle_wms = "wms"
handler_service handle_wmts = "wmts"
handler_service handle_wcs1 = "wcs"
handler_service handle_wcs2 = "wcs"

route-service :
    (r : Router) (args : Args) (op : Operation)
    → route r args ≡ ok op
    → service_of op ≡ handler_service r
unfolding route dispatch
route-service handle_wms args op h = ground arith
route-service handle_wmts args op h = ground arith
route-service handle_wcs1 args op h = ground arith
route-service handle_wcs2 args op h = ground arith

-- The handlers of a service are its own.
abbrev pub HasOwnHandlers : SupportedSvc → Type 0
HasOwnHandlers s = All (λ v. handler_service v.router ≡ s.service) s.versions

-- What `ogc_svc_impl` does once it has found the service.
abbrev found_service : SupportedSvc → (String → Bool) → String → Args → Result Refusal Operation
found_service s activated svc args =
    raise_if (not (activated s.service))
      (refusal s.default_exception_class invalid_service_or_request)
    >> (raise_if (not (upper (arg_or "service" svc args) == upper s.service))
          (refusal s.default_exception_class service_mismatch)
        >> (or_raise (negotiated_version s.versions (lookup "version" args))
              (refusal s.default_exception_class invalid_service)
            >>= λ version. route version.router args))

found_service-activated :
    (s : SupportedSvc) (activated : String → Bool) (svc : String) (args : Args) (op : Operation)
    → HasOwnHandlers s
    → found_service s activated svc args ≡ ok op
    → activated (service_of op) ≡ true
found_service-activated s activated svc args op mine h =
    let (active, matched) = raise_if-ok (not (activated s.service)) _ _ h in
    let (_, versioned) =
      raise_if-ok (not (upper (arg_or "service" svc args) == upper s.service)) _ _ matched in
    let (v, chosen, routed) =
      >>=-eq-ok (or_raise (negotiated_version s.versions (lookup "version" args)) _) _ versioned in
    let same =
      negotiated_version-All (λ w. handler_service w.router ≡ s.service) s.versions
        (lookup "version" args) v mine (ground arith) in
    ap activated (route-service v.router args op routed ∙ same) ∙ ground (arith, active)

ogc_svc_impl-activated :
    (supported : Dict String SupportedSvc) (activated : String → Bool) (svc : String) (args : Args)
    (op : Operation)
    → All (λ e. HasOwnHandlers e.1) supported
    → ogc_svc_impl supported activated svc args ≡ ok op
    → activated (service_of op) ≡ true
unfolding ogc_svc_impl
ogc_svc_impl-activated supported activated svc args op own h =
    let (s, found, rest) = >>=-eq-ok (or_raise (lookup svc supported) _) _ h in
    let mine = lookup-All HasOwnHandlers svc s supported own (ground arith) in
    found_service-activated s activated svc args op mine rest

answer-ok :
    (r : Result Refusal Operation) (op : Operation) → answer r ≡ ok (answered op) → r ≡ ok op
answer-ok r op h = ground arith

-- The choice of the service, for tests `x`, `y`, `z` and what the services answer.
choice-answered :
    (x y z : Bool) (wms wcs : Result Refusal Operation) (other : Refusal) (op : Operation)
    → (if x then answer wms else if y then answer wcs else if z then ok index_page else err other)
      ≡ ok (answered op)
    → (wms ≡ ok op) ⊎ (wcs ≡ ok op)
choice-answered true y z wms wcs other op h = inl (answer-ok wms op h)
choice-answered false true z wms wcs other op h = inr (answer-ok wcs op h)
choice-answered false false true wms wcs other op h = ground arith
choice-answered false false false wms wcs other op h = ground arith

-- Where the handlers of every supported service are its own, a request only ever reaches an
-- operation of a service that is activated in the configuration, whether the request names the
-- service or it is known by the operation.
pub ogc_impl-activated :
    (supported : Dict String SupportedSvc) (activated : String → Bool) (args : Args)
    (op : Operation)
    → All (λ e. HasOwnHandlers e.1) supported
    → ogc_impl supported activated args ≡ ok (answered op)
    → activated (service_of op) ≡ true
unfolding ogc_impl
ogc_impl-activated supported activated args op own h =
    let by : (svc : String)
        → answer (ogc_svc_impl supported activated svc args) ≡ ok (answered op)
        → activated (service_of op) ≡ true =
      λ svc e. ogc_svc_impl-activated supported activated svc args op own (answer-ok _ op e) in
    let service = upper (arg_or "service" "" args) in
    elim (if-cases (service == "") (by_operation supported activated args)
      (answer (ogc_svc_impl supported activated (lower service) args)) h) [
        | inr (_, named) ↦ by (lower service) named
        | inl (_, unnamed) ↦
            elim (choice-answered _ _ _ (ogc_svc_impl supported activated "wms" args)
              (ogc_svc_impl supported activated "wcs" args) _ op unnamed) [
                | inl wms ↦ ogc_svc_impl-activated supported activated "wms" args op own wms
                | inr wcs ↦ ogc_svc_impl-activated supported activated "wcs" args op own wcs
              ]
      ]
