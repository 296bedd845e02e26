-- ===== src/Styles.antt =====
-- Styles (datacube_ows/styles): rules on flag bands and the images that they paint.
pub mod Rules
pub mod MultiDate
pub mod ValueMap
mod Tests
