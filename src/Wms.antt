-- ===== src/Wms.antt =====
-- WMS requests.
pub mod Times
pub mod Params
pub mod Geobox
mod Tests
