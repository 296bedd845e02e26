-- ===== src/Config/Bands/Measurements/Tests.antt =====
-- Runs of the second phase of a band index.
use datacube_ows.Base.{
  ℕ, ◌≡◌, refl, true, false, Option, none, some, List, [], ◌∷◌, String, ok, err, All, arith, ◌==◌,
  nat_eq, string_eq, beq_refl,
}
use datacube_ows.Config.Bands.{add_aliases}
use datacube_ows.Config.Bands.Measurements.{
  Numbers, text, Measurement, Product, Bands, dtype_mismatch, make_bands_ready,
}
use datacube_ows.Config.Bands.Measurements.Agreement.{AgreesWith, make_bands_ready-AgreesWith}

-- Natural numbers, and NaN.
abbrev with_nan : Numbers
with_nan = record {
  N = Option ℕ;
  is_nan = λ x. elim x [ none ↦ true | some _ ↦ false ];
  eq = λ x y. elim x [ none ↦ false | some a ↦ elim y [ none ↦ false | some b ↦ a == b ] ];
  nan = none;
}

eq_itself : (x : Option ℕ) → with_nan.is_nan x ≡ false → with_nan.eq x x ≡ true
eq_itself none h = absurd (ground arith)
eq_itself (some a) h = beq_refl a

abbrev nan_int16 : Measurement with_nan
nan_int16 = record { nodata = text "nan"; dtype = "int16" }

abbrev product : String → String → Product with_nan
product name dtype = record {
  name = name;
  native_bands = "red" ∷ [];
  lookup_measurements = λ bands. ok (("red", record { nodata = text "nan"; dtype = dtype }) ∷ []);
}

abbrev unread : Bands with_nan
unread = record { band_cfg = []; idx = []; measurements = []; nodata_vals = []; dtypes = [] }

abbrev read : Bands with_nan
read = record {
  band_cfg = ("red", "red" ∷ []) ∷ [];
  idx = ("red", "red") ∷ [];
  measurements = ("red", nan_int16) ∷ [];
  nodata_vals = ("red", none) ∷ [];
  dtypes = ("red", "int16") ∷ [];
}

abbrev products : List (Product with_nan)
products = product "ls7" "int16" ∷ product "ls8" "int16" ∷ []

products-read : make_bands_ready with_nan products unread ≡ ok read
unfolding make_bands_ready add_aliases
products-read = refl

types_vary :
    make_bands_ready with_nan (product "ls7" "int16" ∷ product "ls8" "uint8" ∷ []) unread
    ≡ err (dtype_mismatch "red")
unfolding make_bands_ready add_aliases
types_vary = refl

make_bands_ready-AgreesWith_example : All (AgreesWith with_nan read) products
make_bands_ready-AgreesWith_example =
    make_bands_ready-AgreesWith with_nan refl eq_itself products unread read products-read
