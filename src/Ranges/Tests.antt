-- ===== src/Ranges/Tests.antt =====
-- A run of the sanitising of a box.
use datacube_ows.Base.{◌≡◌, true, false, arith}
use datacube_ows.Base.Int.{ℤ, pos, ltb_ℤ}
use datacube_ows.Base.Float.{thousandths}
use datacube_ows.Ranges.{Coordinate, finite, not_finite, Bbox, fallbacks, sanitise_bbox}
use datacube_ows.Ranges.Within.{sanitise_bbox-within}

abbrev box : Bbox thousandths (Coordinate thousandths)
box = record {
  top = finite (pos 95_000);
  bottom = not_finite;
  left = finite (pos 0);
  right = not_finite;
}

ltb_ℤ_irrefl : (x : ℤ) → ltb_ℤ x x ≡ false
ltb_ℤ_irrefl x = ground arith

sanitise_bbox-within_example :
    let limits = fallbacks thousandths true in
    let clean = sanitise_bbox thousandths true box in
    (ltb_ℤ limits.top clean.top ≡ false)
    × (ltb_ℤ clean.bottom limits.bottom ≡ false)
    × (ltb_ℤ clean.left limits.left ≡ false)
    × (ltb_ℤ limits.right clean.right ≡ false)
sanitise_bbox-within_example = sanitise_bbox-within thousandths true box ltb_ℤ_irrefl
