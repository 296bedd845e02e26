-- ===== src/Limits.antt =====
-- Resource limits (datacube_ows/resource_limits.py) and the cache headers that they give
-- (`cache_control_headers` of datacube_ows/http_utils.py).
pub mod Cache
pub mod Check
mod Tests
