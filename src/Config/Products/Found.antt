-- ===== src/Config/Products/Found.antt =====
-- The products of a layer are those of its names.
use datacube_ows.Base.{
  suc, ◌≤◌, ◌≡◌, ◌⊎◌, inl, inr, refl, sym, true, false, Option, some, List, [], ◌∷◌, ◌++◌, String,
  ok, or_raise, >>=-eq-ok, ok_injective, map, length, take, drop, arith, string_eq, ◌==◌,
  Bool-cases, Option-cases, subst, if◌then◌else◌,
}
use datacube_ows.Config.Products.{
  ProductNames, Products, not_found, low_product, ready_loop, with_first, any, ready_products,
}

-- The names that are not empty.
abbrev pub named : List String → List String
named [] = []
named (n ∷ ns) = let rest = named ns in if n == "" then rest else n ∷ rest

cong_cons : {B : Type 0} {x y : B} {xs ys : List B} → x ≡ y → xs ≡ ys → x ∷ xs ≡ y ∷ ys
cong_cons p q = cc

module _ {A : Type 0} (find : String → Option A) where
  found-some :
      (name : String) (a : A) → or_raise (find name) (not_found name) ≡ ok a → find name ≡ some a
  found-some name a h = elim (Option-cases (find name)) [
    | inl absent ↦ absurd (ground arith)
    | inr (b, there) ↦ ground arith
  ]

  -- The products of names that are found.
  abbrev pub AllFound : List String → List A → Type 0
  AllFound names products = map find names ≡ map some products

  low_product-AllFound :
      (low : String) (lows : List String) (found others : List A)
      → low_product find (some low) ≡ ok found
      → AllFound (named lows) others
      → AllFound (named (low ∷ lows)) (found ++ others)
  low_product-AllFound low lows found others h rest = elim (Bool-cases (low == "")) [
    | inl empty ↦
        let none_found : [] ≡ found = ground (arith, empty, h) in
        subst (λ q. AllFound (named (low ∷ lows)) (q ++ others)) none_found
          (ground (arith, empty, rest))
    | inr filled ↦
        let (a, there, is) =
          >>=-eq-ok (or_raise (find low) (not_found low)) (λ a. ok (a ∷ [])) {last = found}
            (ground (arith, filled, h)) in
        subst (λ q. AllFound (named (low ∷ lows)) (q ++ others)) (ok_injective is)
          (ground (arith, filled, rest, found-some low a there))
  ]

  low_loop :
      (names lows : List String) (r : List A × List A)
      → ready_loop find false names lows ≡ ok r
      → AllFound names r.0 × (r.1 ≡ [])
  unfolding ready_loop
  low_loop [] lows r h =
      subst (λ q. AllFound [] q.0 × (q.1 ≡ [])) {x = ([], [])} (ok_injective h) (refl, refl)
  low_loop (name ∷ names) lows r h =
      let (a, there, h1) = >>=-eq-ok (or_raise (find name) (not_found name)) _ h in
      let (rest, more, h2) = >>=-eq-ok (ready_loop find false names (drop 1 lows)) _ h1 in
      let (others, no_low) = low_loop names (drop 1 lows) rest more in
      subst (λ q. AllFound (name ∷ names) q.0 × (q.1 ≡ [])) {x = (a ∷ rest.0, rest.1)}
        (ok_injective h2) (cong_cons (found-some name a there) others, no_low)

  high_loop :
      (names lows : List String) (r : List A × List A)
      → ready_loop find true names lows ≡ ok r
      → AllFound names r.0
        × AllFound (named (take (length names) lows)) r.1
        × (length names ≤ length lows)
  unfolding ready_loop
  high_loop [] lows r h =
      subst (λ q. AllFound [] q.0 × AllFound [] q.1 × (0 ≤ length lows)) {x = ([], [])}
        (ok_injective h) (refl, refl, omega arith)
  high_loop (name ∷ names) [] r h = absurd (ground arith)
  high_loop (name ∷ names) (low ∷ lows) r h =
      let (a, there, h1) = >>=-eq-ok (or_raise (find name) (not_found name)) _ h in
      let (low_res, lower, h2) = >>=-eq-ok (low_product find (some low)) _ h1 in
      let (rest, more, h3) = >>=-eq-ok (ready_loop find true names lows) _ h2 in
      let (others, low_others, short) = high_loop names lows rest more in
      subst
        (λ q.
          AllFound (name ∷ names) q.0
          × AllFound (named (low ∷ take (length names) lows)) q.1
          × (suc (length names) ≤ suc (length lows)))
        {x = (a ∷ rest.0, low_res ++ rest.1)} (ok_injective h3)
        (
          cong_cons (found-some name a there) others,
          low_product-AllFound low (take (length names) lows) low_res rest.1 lower low_others,
          omega arith,
        )

  abbrev pub AllReady : ProductNames → Products find → Type 0
  AllReady names r =
      AllFound names.product_names r.products
      × AllFound (named (take (length names.product_names) names.low_res_product_names))
          r.low_res_products
      × ((names.low_res_product_names ≡ [])
          ⊎ (length names.product_names ≤ length names.low_res_product_names))
      × ((rest : List A) × (r.products ≡ r.product ∷ rest))

  none_taken : (names : List String) → AllFound (named (take (length names) [])) []
  none_taken [] = refl
  none_taken (name ∷ names) = refl

  loop-AllReady :
      (names lows : List String) (r : List A × List A)
      → ready_loop find (any lows) names lows ≡ ok r
      → AllFound names r.0
        × AllFound (named (take (length names) lows)) r.1
        × ((lows ≡ []) ⊎ (length names ≤ length lows))
  loop-AllReady names [] r h =
      let (found, no_low) = low_loop names [] r h in
      (
        found,
        subst (λ q. AllFound (named (take (length names) [])) q) (sym no_low) (none_taken names),
        inl refl,
      )
  loop-AllReady names (low ∷ lows) r h =
      let (found, low_found, short) = high_loop names (low ∷ lows) r h in
      (found, low_found, inr short)

  with_first-rest :
      (ps lows : List A) (r : Products find)
      → with_first find ps lows ≡ ok r
      → (ps ≡ r.products)
        × (lows ≡ r.low_res_products)
        × ((rest : List A) × (r.products ≡ r.product ∷ rest))
  unfolding with_first
  with_first-rest [] lows r h = absurd (ground arith)
  with_first-rest (p ∷ ps) lows r h =
      let Split : Products find → Type 0 = λ q.
        (p ∷ ps ≡ q.products)
        × (lows ≡ q.low_res_products)
        × ((rest : List A) × (q.products ≡ q.product ∷ rest)) in
      subst Split (ok_injective h) (refl, refl, (ps, refl))

  -- A layer that is made ready has the products of its names, in their order and the first of them as its
  -- product, and those of its low resolution names, without the empty ones, of which there are at least
  -- as many as names, or none.
  pub ready_products-AllReady :
      (names : ProductNames) (r : Products find)
      → ready_products find names ≡ ok r
      → AllReady names r
  unfolding ready_products
  ready_products-AllReady names r h =
      let (found, read, h1) =
        >>=-eq-ok
          (ready_loop find (any names.low_res_product_names) names.product_names
            names.low_res_product_names)
          _ h in
      let (all, low, short) =
        loop-AllReady names.product_names names.low_res_product_names found read in
      let (products, low_res, rest) = with_first-rest found.0 found.1 r h1 in
      (
        subst (AllFound names.product_names) products all,
        subst (AllFound (named (take (length names.product_names) names.low_res_product_names)))
            low_res low,
        short,
        rest,
      )
