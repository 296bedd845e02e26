-- ===== src/Config/Grids/Gridded.antt =====
-- The grids of a layer that WCS serves.
use datacube_ows.Base.{
  ◌≡◌, ◌≢◌, ◌⊎◌, inl, inr, ◌==◌, subst, Option, Option-cases, Bool-cases, none, sym, Bool, true,
  some, [], String, ok, >>=-eq-ok, ok_injective, Dict, lookup, string_eq, arith,
}
use datacube_ows.Base.Int.{ℤ, pos, ltb_ℤ}
use datacube_ows.Base.Float.{Floats}
use datacube_ows.Config.Crs.{RawCrs, CrsTable, CrsDef, parse_crses, collect}
use datacube_ows.Config.Crs.Boxes.{entry_of, collect-parse_crses}
use datacube_ows.Config.Grids.{Bounds, Grid, Grids, WcsState, gridded, grid_in, high_of, ready_wcs}

module _ (fl : Floats) where
  open fl use {F, from_ℤ, sub, div}

  high_of-positive :
      (box : Bounds fl) (resolution : F × F) (x y : ℤ)
      → high_of fl box resolution ≡ ok (x, y)
      → (ltb_ℤ (pos 0) x ≡ true) × (ltb_ℤ (pos 0) y ≡ true)
  unfolding high_of
  high_of-positive box (res_x, res_y) x y h = ground arith

  -- The grid of a layer in a coordinate system, if there is one: the native grid, or as many cells over
  -- the bounding box in another published one.
  abbrev pub GridFor :
      Dict String CrsDef
      → Dict String (Bounds fl)
      → String
      → Bounds fl
      → F × F
      → ℤ
      → ℤ
      → String
      → Option (Grid fl)
      → Type 0
  GridFor crses bboxes native box resolution across down name grid =
      ((lookup name crses ≡ none) × (grid ≡ none))
      ⊎ (((def : CrsDef) × (lookup name crses ≡ some def)
            × (name ≡ native)
            × (grid ≡ some (record { origin = (box.left, box.bottom); resolution = resolution })))
          ⊎ (((def : CrsDef) × (lookup name crses ≡ some def)
                × (name ≢ native)
                × (lookup name bboxes ≡ none)
                × (grid ≡ none))
              ⊎ ((def : CrsDef) × (other : Bounds fl) × (lookup name crses ≡ some def)
                  × (name ≢ native)
                  × (lookup name bboxes ≡ some other)
                  × (grid
                      ≡ some (record {
                        origin = (other.left, other.bottom);
                        resolution = (
                          div (sub other.right other.left) (from_ℤ across),
                          div (sub other.top other.bottom) (from_ℤ down),
                        );
                      })))))

  entry_of-GridFor :
      (crses : Dict String CrsDef) (bboxes : Dict String (Bounds fl)) (native : String)
      (box : Bounds fl) (resolution : F × F) (across down : ℤ) (name : String)
      → GridFor crses bboxes native box resolution across down name
          (entry_of (grid_in fl bboxes native box resolution across down) name (lookup name crses))
  unfolding grid_in
  entry_of-GridFor crses bboxes native box resolution across down name =
      elim (Option-cases (lookup name crses)) [
        | inl absent ↦ inl (absent, ground arith)
        | inr (def, published) ↦ elim (Bool-cases (name == native)) [
          | inl same ↦
              inr (inl (def, published, (string_eq.beq_iff name native).0 same, ground arith))
          | inr other ↦
              let apart : name ≢ native =
                λ e. ground (arith, string_eq.beq_iff name native, other, e) in
              elim (Option-cases (lookup name bboxes)) [
                | inl no_box ↦ inr (inr (inl (def, published, apart, no_box, ground arith)))
                | inr (b, boxed) ↦ inr (inr (inr (def, b, published, apart, boxed, ground arith)))
              ]
        ]
      ]

  -- Over the coordinate systems of a configuration, a layer with a native bounding box that WCS accepts is
  -- not hidden: its grids have positive sizes, and there is one in its own coordinate system if that is
  -- published, from the corner of its box and with its resolution, one in each other that is published and
  -- in which it has a bounding box, of as many cells over that box, and no other.
  pub ready_wcs-grids :
      (wcs : Bool) (raws : Dict String RawCrs) (t : CrsTable) (bboxes : Dict String (Bounds fl))
      (native : String) (resolution : F × F) (box : Bounds fl) (state : WcsState fl)
      → parse_crses wcs raws ≡ ok t
      → lookup native bboxes ≡ some box
      → ready_wcs fl true t.crses bboxes native resolution ≡ ok state
      → (g : Grids fl) × (state ≡ gridded g)
        × (ltb_ℤ (pos 0) g.grid_high_x ≡ true)
        × (ltb_ℤ (pos 0) g.grid_high_y ≡ true)
        × ((name : String)
            → GridFor t.crses bboxes native box resolution g.grid_high_x g.grid_high_y name
                (lookup name g.grids))
  unfolding ready_wcs
  ready_wcs-grids wcs raws t bboxes native resolution box state parsed found h =
      let made : (x : ℤ) → (y : ℤ) → Grids fl = λ x y. record {
        origin = (box.left, box.bottom);
        grid_high_x = x;
        grid_high_y = y;
        grids = collect (grid_in fl bboxes native box resolution x y) [] t.crses;
      } in
      let (highs, sized, is) =
        >>=-eq-ok (high_of fl box resolution) (λ highs. ok (gridded (made highs.0 highs.1)))
          {last = state} (ground (arith, found, h)) in
      let (wide, tall) = high_of-positive box resolution highs.0 highs.1 sized in
      (
        made highs.0 highs.1,
        sym (ok_injective is),
        wide,
        tall,
        λ name.
            subst (GridFor t.crses bboxes native box resolution highs.0 highs.1 name)
              (sym (
                collect-parse_crses (grid_in fl bboxes native box resolution highs.0 highs.1) wcs
                  raws t name parsed))
              (entry_of-GridFor t.crses bboxes native box resolution highs.0 highs.1 name),
      )
