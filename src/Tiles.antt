-- ===== src/Tiles.antt =====
-- WMTS: tile matrix sets and the requests for tiles.
pub mod Sets
pub mod Requests
mod Tests
