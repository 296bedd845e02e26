-- ===== src/Wcs.antt =====
-- WCS 2: the extent, the size, the times and the bands of a coverage.
pub mod Scaler
pub mod Transform
pub mod Fields
pub mod Coverage
pub mod Request1
pub mod Grid1
mod Tests
