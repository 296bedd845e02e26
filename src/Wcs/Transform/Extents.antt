-- ===== src/Wcs/Transform/Extents.antt =====
-- The extent and the size that a scaler arrives at.
use datacube_ows.Base.{
  ◌≡◌, refl, ap, ◌∙◌, Bool, true, false, Option, none, some, String, string_eq, if◌then◌else◌, ok,
  err, ◌>>=◌, beq_refl, arith,
}
use datacube_ows.Base.Int.{pos}
use datacube_ows.Base.Float.{Floats}
use datacube_ows.Wcs.Scaler.{
  overspecified_dimension, illegal_size, x_axis, y_axis, Axis, Pair, at, axis_of, Bounds, LayerGrid,
  Scaler, Shape, Size, not_positive, set_axis_size, trim, new_scaler,
}
use datacube_ows.Wcs.Transform.{quantise, quantise_to_resolution, fill_ranges, to_crs}

module _ (fl : Floats) where
  -- An axis is given a size at most once: whatever size is asked for after that, by whatever name, is an
  -- error, that of an illegal size if it is not positive.
  pub set_axis_size-twice :
      (axis : Axis) (first second : Size fl) (self next : Scaler fl)
      → set_axis_size fl axis first self ≡ ok next
      → set_axis_size fl axis second next
        ≡ (if not_positive fl second then err illegal_size else err overspecified_dimension)
  unfolding set_axis_size
  set_axis_size-twice x_axis first second self next h = ground arith
  set_axis_size-twice y_axis first second self next h = ground arith

  -- The extent is at least one and a half pixels wide and high, so that it is not reduced to a pixel.
  abbrev pub Wide : Pair fl.F → fl.F → fl.F → fl.F → fl.F → Type 0
  Wide res left right bottom top =
      (fl.lt (fl.abs (fl.sub right left)) (fl.abs (fl.mul res.x (fl.decimal (pos 15) 1))) ≡ false)
      × (fl.lt (fl.abs (fl.sub top bottom)) (fl.abs (fl.mul res.y (fl.decimal (pos 15) 1))) ≡ false)

  -- The dimensions "x" and "y" mean the axes of these names.
  abbrev pub PlainAxes : LayerGrid fl → Scaler fl → Type 0
  PlainAxes layer self =
      (axis_of self.crs_def layer.native "x" ≡ ok x_axis)
      × (axis_of self.crs_def layer.native "y" ≡ ok y_axis)

  quantise-wide :
      (layer : LayerGrid fl) (d : String) (axis : Axis) (self : Scaler fl) (res low high : fl.F)
      → axis_of self.crs_def layer.native d ≡ ok axis
      → at axis self.lows ≡ some low
      → at axis self.highs ≡ some high
      → fl.lt (fl.abs (fl.sub high low)) (fl.abs (fl.mul res (fl.decimal (pos 15) 1))) ≡ false
      → quantise fl layer d res self ≡ ok self
  unfolding quantise
  quantise-wide layer d axis self res low high a l h w = rw (a, h, l, w) refl

  -- The corners of an extent.
  pub record HasExtent (self : Scaler fl) (left right bottom top : fl.F) : Type 0 where
    pub low_x : self.lows.x ≡ some left
    pub high_x : self.highs.x ≡ some right
    pub low_y : self.lows.y ≡ some bottom
    pub high_y : self.highs.y ≡ some top

  quantise_to_resolution-Wide :
      (layer : LayerGrid fl) (grid : String) (self : Scaler fl) (left right bottom top : fl.F)
      → PlainAxes layer self
      → HasExtent self left right bottom top
      → Wide (layer.resolution grid) left right bottom top
      → quantise_to_resolution fl layer grid self ≡ ok self
  unfolding quantise_to_resolution
  quantise_to_resolution-Wide layer grid self left right bottom top (ax, ay) e (wx, wy) =
      let xs =
        quantise-wide layer "x" x_axis self (layer.resolution grid).x left right ax e.low_x e.high_x
          wx in
      let ys =
        quantise-wide layer "y" y_axis self (layer.resolution grid).y bottom top ay e.low_y e.high_y
          wy in
      ap (λ r. r >>= λ s. quantise fl layer "y" (layer.resolution grid).y s) xs ∙ ys

  module _ (to_crs_point : String → String → fl.F → fl.F → fl.F × fl.F)
      (to_crs_box : String → String → Shape fl → Bounds fl) where
    -- A request that subsets neither axis is for the extent of the layer in the coordinate system of the
    -- output, whatever coordinate system it subsets in, if no side of it is below one and a half times
    -- the resolution.
    pub to_crs-whole_layer :
        (layer : LayerGrid fl) (crs new_crs : String)
        → let b = layer.bboxes new_crs in
          let self = new_scaler fl layer crs in
          PlainAxes layer self
          → Wide (layer.resolution new_crs) b.left b.right b.bottom b.top
          → (next : Scaler fl) × (to_crs fl layer to_crs_point to_crs_box new_crs self ≡ ok next)
            × HasExtent next b.left b.right b.bottom b.top
            × (next.crs ≡ new_crs)
    unfolding to_crs fill_ranges
    to_crs-whole_layer layer crs new_crs axes wide =
        let b = layer.bboxes new_crs in
        let filled = fill_ranges fl layer new_crs (new_scaler fl layer crs) in
        let extent : HasExtent filled b.left b.right b.bottom b.top = record {
          low_x = refl;
          high_x = refl;
          low_y = refl;
          high_y = refl;
        } in
        (
          filled,
          rw (beq_refl new_crs) (
              quantise_to_resolution-Wide layer new_crs filled b.left b.right b.bottom b.top axes
                extent wide),
          extent,
          refl,
        )

    -- A scaler after trims of the x axis, and of the y axis if `y` says so.
    abbrev trimmed :
        LayerGrid fl
        → String
        → Option fl.F
        → Option fl.F
        → Option fl.F
        → Option fl.F
        → Bool
        → Scaler fl
    trimmed layer crs lx ly hx hy y = record {
      crs_def = layer.axis_names crs;
      crs = crs;
      lows = record { x = lx; y = ly };
      highs = record { x = hx; y = hy };
      size = record { x = none; y = none };
      subsetted = record { x = true; y = y };
    }

    -- A request that trims both axes in the coordinate system of the output is for just the extent that
    -- it asks for, if its two dimensions mean the two axes, as "x" and "y" do, and each side of the extent
    -- is not below one and a half times the resolution.
    pub trim-to_crs :
        (layer : LayerGrid fl) (crs dx dy : String) (left right bottom top : fl.F)
        → let self = new_scaler fl layer crs in
          PlainAxes layer self
          → axis_of self.crs_def layer.native dx ≡ ok x_axis
          → axis_of self.crs_def layer.native dy ≡ ok y_axis
          → Wide (layer.resolution crs) left right bottom top
          → (next : Scaler fl) × ((trim fl layer dx (some left) (some right) self >>= λ s.
                (trim fl layer dy (some bottom) (some top) s >>= λ t.
                to_crs fl layer to_crs_point to_crs_box crs t))
              ≡ ok next)
            × HasExtent next left right bottom top
            × (next.crs ≡ crs)
    unfolding to_crs fill_ranges trim
    trim-to_crs layer crs dx dy left right bottom top axes x y wide =
        let one : Scaler fl = trimmed layer crs (some left) none (some right) none false in
        let next : Scaler fl =
          trimmed layer crs (some left) (some bottom) (some right) (some top) true in
        let extent : HasExtent next left right bottom top = record {
          low_x = refl;
          high_x = refl;
          low_y = refl;
          high_y = refl;
        } in
        let first : trim fl layer dx (some left) (some right) (new_scaler fl layer crs) ≡ ok one =
          rw x refl in
        let second : trim fl layer dy (some bottom) (some top) one ≡ ok next = rw y refl in
        let third : to_crs fl layer to_crs_point to_crs_box crs next ≡ ok next =
          rw (beq_refl crs)
            (quantise_to_resolution-Wide layer crs next left right bottom top axes extent wide) in
        (
          next,
          ap
                (λ r. r >>= λ s.
                  (trim fl layer dy (some bottom) (some top) s >>= λ t.
                  to_crs fl layer to_crs_point to_crs_box crs t))
                first
              ∙ ap (λ r. r >>= λ t. to_crs fl layer to_crs_point to_crs_box crs t) second
              ∙ third,
          extent,
          refl,
        )
