-- ===== src/Lib.antt =====
-- datacube-ows is a web server that answers the OGC protocols WMS, WMTS and WCS from an Open Data
-- Cube. This library models the parts of it that decide: which protocol version answers, whether a
-- request is within its limits and how long it may be cached, how configuration is read, inherited and
-- indexed, which date of a layer a request means, and how rules on flags colour an image.
--
-- The parts, the files that model them and the code:
--   Limits.Cache      class CacheControlRules of datacube_ows/resource_limits.py, and
--                     cache_control_headers of datacube_ows/http_utils.py
--   Limits.Check      class OWSResourceManagementRules of datacube_ows/resource_limits.py, and the
--                     fallback to low-resolution products in get_coverage_data of
--                     datacube_ows/wcs2_utils.py (the same block stands in datacube_ows/wcs1_utils.py)
--   Protocol          negotiation of versions in datacube_ows/protocol_versions.py
--   Protocol.Routing  ogc_impl and ogc_svc_impl of datacube_ows/ogc.py, lower_get_args of
--                     datacube_ows/http_utils.py, and the handle_wms, handle_wmts, handle_wcs1 and
--                     handle_wcs2 that they call
--   Dates             find_matching_date of datacube_ows/utils.py
--   Dates.Ranges      month_date_range and the like, datacube_ows/time_utils.py
--   Config.Entry      class OWSConfigEntry of datacube_ows/config_utils.py, the two-phase objects
--   Config.Include    cfg_expand and import_python_obj of datacube_ows/config_utils.py
--   Config.Metadata   class OWSMetadataConfig of that file: its registry, and in Config.Metadata.Parse and
--                     Config.Metadata.Steps its parse_metadata
--   Config.Inherit    deepinherit of datacube_ows/config_toolkit.py
--   Config.Crs        the coordinate systems of parse_global, alias_bboxes and crs of class OWSConfig,
--                     datacube_ows/ows_configuration.py
--   Config.Grids      ready_native_specs and ready_wcs of class OWSNamedLayer in that file
--   Config.Products   parse_product_names and parse_pq_names of its subclasses, their check in its
--                     constructor, and the products of its make_ready
--   Config.Bands      class BandIndex of datacube_ows/ows_configuration.py, with its second phase in
--                     Config.Bands.Measurements
--   Config.Layers     class OWSFolder, parse_ows_layer and parse_layers of
--                     datacube_ows/ows_configuration.py
--   Config.FlagBands  class FlagProductBands of datacube_ows/config_utils.py
--   Styles.Rules      class AbstractMaskRule of datacube_ows/config_utils.py
--   Tiles.Sets        class TileMatrixSet of datacube_ows/tile_matrix_sets.py, and _get_geobox_xy of
--                     datacube_ows/wms_utils.py
--   Tiles.Requests    wmts_args_to_wms and the sections of get_capabilities, datacube_ows/wmts.py
--   Wcs.Scaler        class SpatialParameter and class WCSScaler of datacube_ows/wcs_scaler.py; its
--   Wcs.Transform     second half, to_crs and affine
--   Wcs.Fields        the choices of bands, formats and times in datacube_ows/wcs2_utils.py
--   Wcs.Coverage      get_coverage_data of that file, up to the loading of data
--   Wcs.Request1      class WCS1GetCoverageRequest of datacube_ows/wcs1_utils.py, and get_bands_from_styles
--                     of datacube_ows/wcs_utils.py; its box and its size are in
--   Wcs.Grid1         and the whole request in Wcs.Request1.Parsed
--   Wms.Times         get_times, parse_time_item, parse_wms_time_strings and get_arg of
--                     datacube_ows/wms_utils.py
--   Wms.Params        get_layer_from_arg and single_style_from_args of that file; its boxes are in
--   Wms.Geobox        (_get_geobox, _get_polygon and zoom_factor, and create_geobox of
--                     datacube_ows/ogc_utils.py), and the classes of parameters of GetMap, GetFeatureInfo
--                     and GetLegendGraphic in
--   Wms.Params.Requests, with cfg.crs of datacube_ows/ows_configuration.py
--   Ranges            sanitise_bbox of datacube_ows/index/postgis/product_ranges.py
--   Styles.MultiDate  class MultiDateValueMapRule of datacube_ows/styles/colormap.py
--   Styles.ValueMap   value maps and their legends, datacube_ows/styles/colormap.py
-- Base holds what they share: Boolean tests, lists, dictionaries as association lists in insertion
-- order, results that are a value or an exception, signed integers, text, Python's int() of a text,
-- and an interface for floats. The child modules of a part hold its proofs, its Tests module runs.
--
-- An exception is a value of the part's own error type, and a call returns a Result. State is passed
-- on explicitly. A float is a value of the record Floats, whose operations are parameters.
--
-- Bounds: the binary search of Dates recurs on fuel, the length of the list of dates, which halves at
-- each step; cfg_expand recurs on fuel for how deep inclusions are nested, and one more than the number of
-- distinct paths that are included is enough; no other loop needs fuel. Python's integers have no bound, so that no word size occurs.
--
-- Not modelled: the database and the datacube index, the loading and rendering of images with numpy,
-- xarray and matplotlib, Flask, logging and metrics, and the templates of the responses.
pub mod Base
pub mod Limits
pub mod Config
pub mod Dates
pub mod Protocol
pub mod Styles
pub mod Tiles
pub mod Wcs
pub mod Wms
pub mod Ranges
