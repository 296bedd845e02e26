-- ===== src/Config.antt =====
-- The machinery of configuration objects (datacube_ows/config_utils.py, datacube_ows/config_toolkit.py).
pub mod Entry
pub mod Inherit
pub mod FlagBands
pub mod Bands
pub mod Include
pub mod Metadata
pub mod Layers
pub mod Crs
pub mod Grids
pub mod Products
mod Tests
