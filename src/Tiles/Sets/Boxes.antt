-- ===== src/Tiles/Sets/Boxes.antt =====
-- The order of the axes in a bounding box.
use datacube_ows.Base.{
  ℕ, ◌≡◌, refl, Bool, true, false, some, get_elem?, Option-cases, inl, inr, arith,
}
use datacube_ows.Base.Int.{ℤ, pos}
use datacube_ows.Base.Float.{Floats}
use datacube_ows.Tiles.Sets.{
  TileMatrixSet, Box, tile_span, tile_start, bbox_at, wms_bbox_coords, get_geobox_xy,
}

-- The box of a tile is read back as the same extent whichever axis a coordinate system puts first.
pub get_geobox_xy-bbox_at :
    (fl : Floats) (vertical : Bool) (tms : TileMatrixSet fl) (scale : fl.F) (row col : ℤ)
    → get_geobox_xy fl vertical (bbox_at fl vertical tms scale row col)
      ≡ bbox_at fl false tms scale row col
unfolding get_geobox_xy bbox_at
get_geobox_xy-bbox_at fl true tms scale row col = refl
get_geobox_xy-bbox_at fl false tms scale row col = refl

pub wms_bbox_coords-some :
    (fl : Floats) (vertical : Bool) (tms : TileMatrixSet fl) (k : ℕ) (row col : ℤ) (box : Box fl)
    → wms_bbox_coords fl vertical tms k row col ≡ some box
    → (scale : fl.F) × (get_elem? tms.scale_set k ≡ some scale)
      × (box ≡ bbox_at fl vertical tms scale row col)
unfolding wms_bbox_coords
wms_bbox_coords-some fl vertical tms k row col box h =
    elim (Option-cases (get_elem? tms.scale_set k)) [
      | inl absent ↦ absurd (ground (arith, absent, h))
      | inr (scale, e) ↦ (scale, e, ground (arith, e, h))
    ]

module _ (fl : Floats) where
  -- The span of a tile along an axis: the pixels of a tile, each of 0.28 mm at the scale, in the unit of
  -- the axis.
  abbrev pub span : fl.F → fl.F → ℤ → fl.F
  span scale unit pixels =
      fl.mul (fl.mul (fl.mul scale (fl.decimal (pos 28) 5)) unit) (fl.from_ℤ pixels)

  -- A box (minx, miny, maxx, maxy) is that of a tile: from its column and its row, counted in spans from
  -- the origin, to one span further. The second number is the far side, for rows that count downwards.
  pub record TileBox (tms : TileMatrixSet fl) (scale : fl.F) (row col : ℤ) (box : Box fl)
      : Type 0 where
    pub near_x :
        box.0
        ≡ fl.add tms.matrix_origin.0
            (fl.mul (fl.from_ℤ col) (span scale tms.unit_coefficients.0 tms.tile_size.0))
    pub near_y :
        box.3
        ≡ fl.add tms.matrix_origin.1
            (fl.mul (fl.from_ℤ row) (span scale tms.unit_coefficients.1 tms.tile_size.1))
    pub far_x : box.2 ≡ fl.add box.0 (span scale tms.unit_coefficients.0 tms.tile_size.0)
    pub far_y : box.1 ≡ fl.add box.3 (span scale tms.unit_coefficients.1 tms.tile_size.1)

  pub bbox_at-TileBox :
      (tms : TileMatrixSet fl) (scale : fl.F) (row col : ℤ)
      → TileBox tms scale row col (bbox_at fl false tms scale row col)
  unfolding bbox_at tile_span tile_start
  bbox_at-TileBox tms scale row col = record {
    near_x = refl;
    near_y = refl;
    far_x = refl;
    far_y = refl;
  }
