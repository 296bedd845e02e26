-- ===== src/Config/Bands/Measurements.antt =====
-- The second phase of class BandIndex (datacube_ows/ows_configuration.py): `make_ready`, which reads the
-- measurements of the products of a layer. The products come from the datacube: parameters.
pub mod Agreement
mod Tests
use datacube_ows.Base.{
  Bool, true, false, not, ◌&&◌, ◌||◌, Option, none, some, List, [], ◌∷◌, String, map, Result, ok,
  err, ◌>>=◌, ◌>>◌, raise_if, or_raise, Dict, lookup, insert, ◌==◌, string_eq, if◌then◌else◌,
}
use datacube_ows.Config.Bands.{BandError, add_aliases, band, band_names}

-- The numbers of nodata values: numpy's `isnan`, Python's `==`, and `float("nan")`.
pub record Numbers : Type 1 where
  pub N : Type 0
  pub is_nan : N → Bool
  pub eq : N → N → Bool
  pub nan : N

pub data ReadyError : Type 0 where
  bad_alias : BandError → ReadyError
  nodata_mismatch dtype_mismatch : String → ReadyError
  -- A product, and the band that it misses.
  missing_band : String → String → ReadyError
  value_error key_error : ReadyError

module _ (num : Numbers) where
  open num use {N, is_nan, eq, nan}

  pub data Nodata : Type 0 where
    number : N → Nodata
    text : String → Nodata

  pub record Measurement : Type 0 where
    pub nodata : Nodata
    -- the name of the data type that numpy knows it by, on which `==` of data types rests
    pub dtype : String

  -- `lookup_measurements` fails with a KeyError for the band that is missing.
  pub record Product : Type 0 where
    pub name : String
    pub native_bands : List String
    pub lookup_measurements : List String → Result String (Dict String Measurement)

  -- What the second phase changes.
  pub record Bands : Type 0 where
    pub band_cfg : Dict String (List String)
    pub idx : Dict String String
    pub measurements : Dict String Measurement
    pub nodata_vals : Dict String N
    pub dtypes : Dict String String

  pub floatify_nans : Nodata → Result ReadyError N
  floatify_nans (number x) = ok x
  floatify_nans (text t) = if t == "nan" then ok nan else err value_error

  pub all_nodata : Dict String Measurement → Result ReadyError (Dict String N)
  unfolding floatify_nans
  all_nodata [] = ok []
  all_nodata ((k, m) ∷ ms) = do n ← floatify_nans m.nodata; rest ← all_nodata ms; ok ((k, n) ∷ rest)

  abbrev pub all_dtypes : Dict String Measurement → Dict String String
  all_dtypes [] = []
  all_dtypes ((k, m) ∷ ms) = (k, m.dtype) ∷ all_dtypes ms

  -- `nodata != m.nodata`
  abbrev pub differs : N → Nodata → Bool
  differs n (number x) = not (eq x n)
  differs n (text t) = true

  -- The test on the nodata value of a further product.
  pub nodata_differs : N → Nodata → Result ReadyError Bool
  unfolding floatify_nans
  nodata_differs n other =
      let as_nan = floatify_nans other >>= λ x. ok (not (is_nan x)) in
      if is_nan n then as_nan else ok (differs n other)

  -- One band of a further product. A band without a value is a KeyError, as if the product missed it.
  pub check_band : String → Bands → String → Measurement → Result ReadyError (Unit {0})
  unfolding nodata_differs
  check_band product self k m = do
    n ← or_raise (lookup k self.nodata_vals) (missing_band product k)
    d ← nodata_differs n m.nodata
    raise_if d (nodata_mismatch k)
    t ← or_raise (lookup k self.dtypes) (missing_band product k)
    raise_if (not (m.dtype == t)) (dtype_mismatch k)

  pub check_bands : String → Bands → Dict String Measurement → Result ReadyError (Unit {0})
  unfolding check_band
  check_bands product self [] = ok tt
  check_bands product self ((k, m) ∷ ms) =
      check_band product self k m >> check_bands product self ms

  abbrev pub product_measurements :
      Product → Dict String (List String) → Result ReadyError (Dict String Measurement)
  product_measurements p cfg = elim (p.lookup_measurements (band_names cfg)) [
    | ok ms ↦ ok ms
    | err k ↦ err (missing_band p.name k)
  ]

  -- `self.band_cfg[b] = [b]` for each band
  abbrev pub add_native : List String → Dict String (List String) → Dict String (List String)
  add_native [] cfg = cfg
  add_native (b ∷ bs) cfg = add_native bs (insert b (b ∷ []) cfg)

  abbrev pub caught : {A : Type 0} → Result BandError A → Result ReadyError A
  caught (ok a) = ok a
  caught (err e) = err (bad_alias e)

  -- A layer without configured bands has those of its first product.
  pub default_bands : Bool → Product → Bands → Result ReadyError Bands
  default_bands false p self = ok self
  default_bands true p self = do
    let cfg = add_native p.native_bands self.band_cfg
    idx ← caught (add_aliases cfg self.idx)
    ok (record self { band_cfg = cfg; idx = idx })

  pub first_product : Bool → Product → Bands → Result ReadyError Bands
  unfolding default_bands all_nodata
  first_product default_to_all p self = do
    bands ← default_bands default_to_all p self
    ms ← product_measurements p bands.band_cfg
    nodata ← all_nodata ms
    ok (record bands { measurements = ms; nodata_vals = nodata; dtypes = all_dtypes ms })

  pub further_products : List Product → Bands → Result ReadyError (Unit {0})
  unfolding check_bands
  further_products [] self = ok tt
  further_products (p ∷ ps) self = do
    ms ← product_measurements p self.band_cfg
    check_bands p.name self ms
    further_products ps self

  abbrev pub is_configured : Dict String (List String) → Bool
  is_configured [] = false
  is_configured (_ ∷ _) = true

  -- `make_ready`
  unfoldable pub make_bands_ready : List Product → Bands → Result ReadyError Bands
  unfolding first_product further_products
  make_bands_ready [] self = ok (record self { measurements = []; nodata_vals = []; dtypes = [] })
  make_bands_ready (p ∷ ps) self = do
    bands ← first_product (not (is_configured self.band_cfg)) p self
    further_products ps bands
    ok bands

  -- `nodata_val`
  pub nodata_val : Bands → String → Result ReadyError N
  nodata_val self name_alias = do
    name ← caught (band self.idx name_alias)
    or_raise (lookup name self.nodata_vals) key_error
