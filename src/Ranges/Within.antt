-- ===== src/Ranges/Within.antt =====
-- A sanitised box lies within its limits.
use datacube_ows.Base.{◌≡◌, Bool, true, false, arith}
use datacube_ows.Base.Float.{Floats}
use datacube_ows.Ranges.{
  Coordinate, finite, not_finite, Bbox, sanitise_coordinate, fallbacks, sanitise_bbox,
}

module _ (fl : Floats) where
  sanitise_coordinate_upper :
      (c : Coordinate fl) (limit : fl.F)
      → fl.lt limit limit ≡ false
      → fl.lt limit (sanitise_coordinate fl c limit true) ≡ false
  unfolding sanitise_coordinate
  sanitise_coordinate_upper not_finite limit h = h
  sanitise_coordinate_upper (finite c) limit h = ground arith

  sanitise_coordinate_lower :
      (c : Coordinate fl) (limit : fl.F)
      → fl.lt limit limit ≡ false
      → fl.lt (sanitise_coordinate fl c limit false) limit ≡ false
  unfolding sanitise_coordinate
  sanitise_coordinate_lower not_finite limit h = h
  sanitise_coordinate_lower (finite c) limit h = ground arith

  -- Where no float is below itself, no side of a sanitised box lies beyond its limit, whatever the
  -- coordinates, infinite ones and those that are no number included.
  pub sanitise_bbox-within :
      (is_4326 : Bool) (bbox : Bbox fl (Coordinate fl))
      → ((x : fl.F) → fl.lt x x ≡ false)
      → let limits = fallbacks fl is_4326 in
        let clean = sanitise_bbox fl is_4326 bbox in
        (fl.lt limits.top clean.top ≡ false)
        × (fl.lt clean.bottom limits.bottom ≡ false)
        × (fl.lt clean.left limits.left ≡ false)
        × (fl.lt limits.right clean.right ≡ false)
  unfolding sanitise_bbox
  sanitise_bbox-within is_4326 bbox irrefl =
      let limits = fallbacks fl is_4326 in
      (
        sanitise_coordinate_upper bbox.top limits.top (irrefl limits.top),
        sanitise_coordinate_lower bbox.bottom limits.bottom (irrefl limits.bottom),
        sanitise_coordinate_lower bbox.left limits.left (irrefl limits.left),
        sanitise_coordinate_upper bbox.right limits.right (irrefl limits.right),
      )
