-- ===== src/Config/Bands/Measurements/Agreement.antt =====
-- The products of a layer agree on its bands.
use datacube_ows.Base.{
  ◌≡◌, ap, subst, Bool, true, false, not, ◌&&◌, some, List, [], ◌∷◌, String, ok, >>=-eq-ok,
  ok_injective, Dict, lookup, All, ◌==◌, string_eq, if◌then◌else◌, arith, Option-cases, Bool-cases,
  Result-cases, inl, inr,
}
use datacube_ows.Config.Bands.Measurements.{
  Numbers, Nodata, number, text, Measurement, Product, Bands, floatify_nans, all_nodata, all_dtypes,
  nodata_differs, check_band, check_bands, product_measurements, default_bands, first_product,
  further_products, is_configured, make_bands_ready,
}

module _ (num : Numbers) where
  open num use {N, is_nan, eq, nan}

  -- The nodata value of a measurement is the recorded one, or both are NaN.
  abbrev pub same_nodata : N → Nodata num → Bool
  same_nodata n (number x) = if is_nan n then is_nan x else eq x n
  same_nodata n (text t) = t == "nan" && is_nan n

  -- What is recorded for a band is what a measurement says.
  abbrev pub Agrees : Bands num → String → Measurement num → Type 0
  Agrees self k m =
      (n : N) × (lookup k self.nodata_vals ≡ some n)
      × (same_nodata n m.nodata ≡ true)
      × (lookup k self.dtypes ≡ some m.dtype)

  abbrev pub AgreesWith : Bands num → Product num → Type 0
  AgreesWith self p =
      (ms : Dict String (Measurement num)) × (product_measurements num p self.band_cfg ≡ ok ms)
      × ((k : String) (m : Measurement num) → lookup k ms ≡ some m → Agrees self k m)

  nodata_differs-same_nodata :
      (n : N) (d : Nodata num) → nodata_differs num n d ≡ ok false → same_nodata n d ≡ true
  unfolding nodata_differs floatify_nans
  nodata_differs-same_nodata n (number x) e = ground arith
  nodata_differs-same_nodata n (text t) e = ground arith

  check_band-Agrees :
      (product : String) (self : Bands num) (k : String) (m : Measurement num)
      → check_band num product self k m ≡ ok tt
      → Agrees self k m
  unfolding check_band
  check_band-Agrees product self k m e = elim (Option-cases (lookup k self.nodata_vals)) [
    | inl missing ↦ absurd (ground arith)
    | inr (n, recorded) ↦ elim (Result-cases (nodata_differs num n m.nodata)) [
      | inr failed ↦ absurd (ground arith)
      | inl (d, compared) ↦ elim (Option-cases (lookup k self.dtypes)) [
        | inl missing ↦ absurd (ground arith)
        | inr (t, typed) ↦ (
          n,
          recorded,
          nodata_differs-same_nodata n m.nodata (ground arith),
          ground (arith, typed, string_eq.beq_iff m.dtype t),
        )
      ]
    ]
  ]

  check_bands-Agrees :
      (product : String) (self : Bands num) (ms : Dict String (Measurement num))
      → check_bands num product self ms ≡ ok tt
      → (k : String) (m : Measurement num) → lookup k ms ≡ some m
      → Agrees self k m
  unfolding check_bands
  check_bands-Agrees product self [] e k m h = absurd (ground arith)
  check_bands-Agrees product self ((j, w) ∷ ms) e k m h =
      let (_, first, rest) = >>=-eq-ok (check_band num product self j w) _ e in
      elim (Bool-cases (k == j)) [
        | inl same ↦
            let here = check_band-Agrees product self j w first in
            let value : w ≡ m = ground arith in
            let name : j ≡ k = ground (arith, string_eq.beq_iff k j) in
            subst (λ q. Agrees self q m) name (subst (Agrees self j) value here)
        | inr other ↦ check_bands-Agrees product self ms rest k m (ground arith)
      ]

  further_products-AgreesWith :
      (ps : List (Product num)) (self : Bands num)
      → further_products num ps self ≡ ok tt
      → All (AgreesWith self) ps
  unfolding further_products
  further_products-AgreesWith [] self e = tt
  further_products-AgreesWith (p ∷ ps) self e =
      let (ms, read, e1) = >>=-eq-ok (product_measurements num p self.band_cfg) _ e in
      let (_, checked, rest) = >>=-eq-ok (check_bands num p.name self ms) _ e1 in
      (
        (ms, read, check_bands-Agrees p.name self ms checked),
        further_products-AgreesWith ps self rest,
      )

  lookup-all_dtypes :
      (k : String) (ms : Dict String (Measurement num)) (m : Measurement num)
      → lookup k ms ≡ some m
      → lookup k (all_dtypes num ms) ≡ some m.dtype
  lookup-all_dtypes k [] m h = absurd (ground arith)
  lookup-all_dtypes k ((j, w) ∷ ms) m h = elim (Bool-cases (k == j)) [
    | inl same ↦ let value : w ≡ m = ground arith in ground (arith, ap (λ q. q.dtype) value)
    | inr other ↦ ground (arith, lookup-all_dtypes k ms m)
  ]

  module _ (nan_is_nan : is_nan nan ≡ true)
      (eq_self : (x : N) → is_nan x ≡ false → eq x x ≡ true) where
    floatify_nans-same_nodata :
        (d : Nodata num) (n : N) → floatify_nans num d ≡ ok n → same_nodata n d ≡ true
    unfolding floatify_nans
    floatify_nans-same_nodata (number x) n e = ground (arith, eq_self x)
    floatify_nans-same_nodata (text t) n e = ground arith

    lookup-all_nodata :
        (k : String) (ms : Dict String (Measurement num)) (m : Measurement num)
        (nodata : Dict String N)
        → all_nodata num ms ≡ ok nodata
        → lookup k ms ≡ some m
        → (n : N) × (lookup k nodata ≡ some n) × (same_nodata n m.nodata ≡ true)
    unfolding all_nodata
    lookup-all_nodata k [] m nodata e h = absurd (ground arith)
    lookup-all_nodata k ((j, w) ∷ ms) m nodata e h =
        let (n, read, e1) = >>=-eq-ok (floatify_nans num w.nodata) _ e in
        let (rest, listed, last) = >>=-eq-ok (all_nodata num ms) _ e1 in
        let Found : Dict String N → Type 0 =
          λ d. (n : N) × (lookup k d ≡ some n) × (same_nodata n m.nodata ≡ true) in
        subst Found (ok_injective last) (elim (Bool-cases (k == j)) [
          | inl same ↦
              let value : w ≡ m = ground arith in
              (
                n,
                ground arith,
                subst (λ q. same_nodata n q.nodata ≡ true) value
                    (floatify_nans-same_nodata w.nodata n read),
              )
          | inr other ↦
              let (p, found, agrees) = lookup-all_nodata k ms m rest listed (ground arith) in
              (p, ground arith, agrees)
        ])

    first_product-AgreesWith :
        (default_to_all : Bool) (p : Product num) (self bands : Bands num)
        → first_product num default_to_all p self ≡ ok bands
        → AgreesWith bands p
    unfolding first_product
    first_product-AgreesWith default_to_all p self bands e =
        let (mid, _, e1) = >>=-eq-ok (default_bands num default_to_all p self) _ e in
        let (ms, read, e2) = >>=-eq-ok (product_measurements num p mid.band_cfg) _ e1 in
        let (nodata, listed, last) = >>=-eq-ok (all_nodata num ms) _ e2 in
        subst (λ b. AgreesWith b p) (ok_injective last)
          (
            ms,
            read,
            λ k m h.
                let (n, found, agrees) = lookup-all_nodata k ms m nodata listed h in
                (n, found, agrees, lookup-all_dtypes k ms m h),
          )

    -- Once the bands of a layer are ready, each of its products has every band of the configuration, and
    -- the nodata value and the data type that are recorded for a band are those of each product, where NaN
    -- counts as the same as NaN: if a number that is not NaN equals itself.
    pub make_bands_ready-AgreesWith :
        (products : List (Product num)) (self bands : Bands num)
        → make_bands_ready num products self ≡ ok bands
        → All (AgreesWith bands) products
    unfolding make_bands_ready
    make_bands_ready-AgreesWith [] self bands e = tt
    make_bands_ready-AgreesWith (p ∷ ps) self bands e =
        let (first, made, e1) =
          >>=-eq-ok (first_product num (not (is_configured num self.band_cfg)) p self) _ e in
        let (_, checked, last) = >>=-eq-ok (further_products num ps first) _ e1 in
        subst (λ b. All (AgreesWith b) (p ∷ ps)) (ok_injective last)
          (
            first_product-AgreesWith (not (is_configured num self.band_cfg)) p self first made,
            further_products-AgreesWith ps first checked,
          )
