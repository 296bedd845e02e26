-- ===== src/Protocol/Order.antt =====
-- The order on version numbers is total and transitive.
use datacube_ows.Base.{◌≡◌, refl, true, false, List, [], ◌∷◌, arith}
use datacube_ows.Base.Int.{ℤ}
use datacube_ows.Protocol.{ge_parts}

pub ge_parts_refl : (xs : List ℤ) → ge_parts xs xs ≡ true
unfolding ge_parts
ge_parts_refl [] = refl
ge_parts_refl (x ∷ xs) = ground (arith, ge_parts_refl xs)

pub ge_parts_trans :
    (xs ys zs : List ℤ) → ge_parts xs ys ≡ true → ge_parts ys zs ≡ true → ge_parts xs zs ≡ true
unfolding ge_parts
ge_parts_trans xs ys [] p q = ground arith
ge_parts_trans xs [] (z ∷ zs) p q = ground arith
ge_parts_trans [] (y ∷ ys) (z ∷ zs) p q = ground arith
ge_parts_trans (x ∷ xs) (y ∷ ys) (z ∷ zs) p q = ground (arith, ge_parts_trans xs ys zs)

pub ge_parts_total : (xs ys : List ℤ) → ge_parts xs ys ≡ false → ge_parts ys xs ≡ true
unfolding ge_parts
ge_parts_total xs [] h = ground arith
ge_parts_total [] (y ∷ ys) h = ground arith
ge_parts_total (x ∷ xs) (y ∷ ys) h = ground (arith, ge_parts_total xs ys)
