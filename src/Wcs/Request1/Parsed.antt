-- ===== src/Wcs/Request1/Parsed.antt =====
-- A WCS 1 request as a whole: `WCS1GetCoverageRequest.__init__` of datacube_ows/wcs1_utils.py. The geobox
-- is given by its sizes, its transformation and its coordinate system.
use datacube_ows.Base.{
  ℕ, Bool, false, not, Option, none, some, List, String, Result, ok, ◌>>=◌, ◌>>◌, lookup, ◌==◌,
  string_eq,
}
use datacube_ows.Base.Float.{Floats}
use datacube_ows.Wcs.Request1.{
  Wcs1Error, Layer1, Format1, Config1, Args, request_layer, request_format1, request_crs1,
  response_crs1, request_times, request_bands1, only,
}
use datacube_ows.Wcs.Grid1.{
  Box1, Size1, Affine1, request_box, response_box, request_size, request_affine,
}

-- `bool(args.get("ows_stats"))`
abbrev has_text : Option String → Bool
has_text none = false
has_text (some t) = not (t == "")

module _ (fl : Floats) where
  pub record CoverageRequest1 : Type 0 where
    pub layer : Layer1
    pub format : Format1
    pub request_crs : String
    pub response_crs : String
    pub box : Box1 fl
    pub times : List ℕ
    pub bands : List (Option String)
    pub size : Size1 fl
    pub affine : Affine1 fl
    pub ows_stats : Bool

  -- What the code calls: the parsing of floats and of dates, and the equality of coordinate
  -- systems and the reprojection of boxes.
  pub record Calls1 : Type 0 where
    pub parse_float : String → Option fl.F
    pub parse_date : String → Option ℕ
    pub same_crs : String → String → Bool
    pub to_crs : String → String → Box1 fl → Box1 fl

  unfoldable pub coverage_request1 : Calls1 → Config1 → Args → Result Wcs1Error CoverageRequest1
  unfolding request_layer request_format1 request_crs1 response_crs1 request_times request_bands1
      request_box response_box request_size request_affine
  coverage_request1 calls cfg args = do
    layer ← request_layer cfg args
    fmt ← request_format1 cfg args
    crs ← request_crs1 cfg args
    response ← response_crs1 cfg args crs
    given ← request_box fl calls.parse_float args
    let box = response_box fl calls.same_crs calls.to_crs crs response given
    times ← request_times calls.parse_date layer fmt args
    bands ← request_bands1 layer args
    only "exceptions" "application/vnd.ogc.se_xml" "EXCEPTIONS parameter" args
    only "interpolation" "nearest neighbor" "INTERPOLATION parameter" args
    size ← request_size fl calls.parse_float args box
    affine ← request_affine fl box size
    ok (record {
      layer = layer;
      format = fmt;
      request_crs = crs;
      response_crs = response;
      box = box;
      times = times;
      bands = bands;
      size = size;
      affine = affine;
      ows_stats = has_text (lookup "ows_stats" args);
    })
