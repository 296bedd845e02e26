-- ===== src/Wcs/Grid1/Sizes.antt =====
-- Which sizes a WCS 1 request may give.
use datacube_ows.Base.{◌≡◌, true, false, string_eq, Option, none, some, String, lookup}
use datacube_ows.Base.Int.{ℤ, pos, ltb_ℤ}
use datacube_ows.Base.Text.{codes}
use datacube_ows.Base.Decimal.{py_int}
use datacube_ows.Base.Float.{Floats}
use datacube_ows.Wcs.Request1.{Args}
use datacube_ows.Wcs.Grid1.{Box1, Size1}

-- The argument is there, and it is a positive integer.
abbrev pub GivesInt : Args → String → ℤ → Type 0
GivesInt args name n =
    (text : String) × (lookup name args ≡ some text)
    × (py_int (codes text) ≡ some n)
    × (ltb_ℤ (pos 0) n ≡ true)

module _ (fl : Floats) (parse_float : String → Option fl.F) (args : Args) (box : Box1 fl) where
  abbrev pub GivesFloat : String → fl.F → Type 0
  GivesFloat name x =
      (text : String) × (lookup name args ≡ some text)
      × (parse_float text ≡ some x)
      × (fl.lt x (fl.decimal (pos 0) 1) ≡ false)
      × (fl.eq x (fl.decimal (pos 0) 1) ≡ false)

  -- The size is given by WIDTH and HEIGHT alone.
  abbrev pub SizedBy : Size1 fl → Type 0
  SizedBy s =
      GivesInt args "width" s.width
      × GivesInt args "height" s.height
      × (lookup "resx" args ≡ none)
      × (lookup "resy" args ≡ none)
      × (s.resx ≡ fl.div (fl.sub box.max_x box.min_x) (fl.from_ℤ s.width))
      × (s.resy ≡ fl.div (fl.sub box.max_y box.min_y) (fl.from_ℤ s.height))

  -- The size is given by RESX and RESY alone.
  abbrev pub ResolvedBy : Size1 fl → Type 0
  ResolvedBy s =
      GivesFloat "resx" s.resx
      × GivesFloat "resy" s.resy
      × (lookup "width" args ≡ none)
      × (lookup "height" args ≡ none)
      × (s.width
          ≡ fl.trunc (fl.add (fl.div (fl.sub box.max_x box.min_x) s.resx) (fl.decimal (pos 5) 1)))
      × (s.height
          ≡ fl.trunc (fl.add (fl.div (fl.sub box.max_y box.min_y) s.resy) (fl.decimal (pos 5) 1)))
