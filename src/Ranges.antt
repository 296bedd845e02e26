-- ===== src/Ranges.antt =====
-- The bounding boxes of a layer's ranges: `sanitise_bbox` of datacube_ows/index/postgis/product_ranges.py.
-- A coordinate that a reprojection gives may be infinite or no number.
pub mod Within
mod Tests
use datacube_ows.Base.{ℕ, ◌*◌, ◌^◌, Bool, true, false, ◌&&◌, not, if◌then◌else◌}
use datacube_ows.Base.Int.{ℤ, pos, ◌-ℤ◌}
use datacube_ows.Base.Float.{Floats}

module _ (fl : Floats) where
  open fl use {F, from_ℤ, lt}

  pub data Coordinate : Type 0 where
    not_finite : Coordinate
    finite : F → Coordinate

  pub record Bbox (A : Type 0) : Type 0 where
    pub top : A
    pub bottom : A
    pub left : A
    pub right : A

  -- `sanitise_coordinate`
  pub sanitise_coordinate : Coordinate → F → Bool → F
  sanitise_coordinate not_finite fallback upper = fallback
  sanitise_coordinate (finite coord) fallback upper =
      if upper && lt fallback coord
      then fallback
      else if not upper && lt coord fallback
      then fallback
      else coord

  -- 9.999999999e99, an integer as a float
  abbrev pub huge : ℤ
  huge = pos (9_999_999_999 * 10 ^ 90)

  -- The fallbacks for EPSG:4326, and for any other coordinate system.
  pub fallbacks : Bool → Bbox F
  fallbacks is_4326 =
      if is_4326
      then record {
        top = from_ℤ (pos 90);
        bottom = from_ℤ (pos 0 -ℤ pos 90);
        left = from_ℤ (pos 0 -ℤ pos 180);
        right = from_ℤ huge;
      }
      else record {
        top = from_ℤ huge;
        bottom = from_ℤ (pos 0 -ℤ huge);
        left = from_ℤ (pos 0 -ℤ huge);
        right = from_ℤ huge;
      }

  -- `sanitise_bbox`
  pub sanitise_bbox : Bool → Bbox Coordinate → Bbox F
  unfolding sanitise_coordinate
  sanitise_bbox is_4326 bbox =
      let limits = fallbacks is_4326 in
      record {
        top = sanitise_coordinate bbox.top limits.top true;
        bottom = sanitise_coordinate bbox.bottom limits.bottom false;
        left = sanitise_coordinate bbox.left limits.left false;
        right = sanitise_coordinate bbox.right limits.right true;
      }
