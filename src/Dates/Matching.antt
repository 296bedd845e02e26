-- ===== src/Dates/Matching.antt =====
-- Splitting a sorted list of datetimes at an index.
use datacube_ows.Base.{
  ℕ, zero, suc, ◌≤◌, ◌<◌, ◌/◌, ◌≡◌, refl, ap, Bool, false, ◌||◌, some, List, [], ◌∷◌, ◌++◌, arith,
  All, any, nat_beq, get_elem?, take, drop,
}
use datacube_ows.Dates.{AwareDateTime, instant, second}

-- In ascending order of time.
abbrev pub Sorted : List AwareDateTime → Type 0
Sorted [] = Unit
Sorted (t ∷ ts) = All (λ u. instant t ≤ instant u) ts × Sorted ts

-- The whole second of a datetime.
abbrev pub second_of : AwareDateTime → ℕ
second_of t = instant t / second

-- Some date of the list lies in the same whole second as `t`.
abbrev pub occurs : AwareDateTime → List AwareDateTime → Bool
occurs t ts = any (λ u. nat_beq (second_of t) (second_of u)) ts

pub split_at :
    (k : ℕ) (ts : List AwareDateTime) {m : AwareDateTime}
    → get_elem? ts k ≡ some m
    → ts ≡ take k ts ++ (m ∷ drop (suc k) ts)
split_at k [] h = cc
split_at zero (t ∷ ts) h = cc
split_at (suc k) (t ∷ ts) h = ap (λ r. t ∷ r) (split_at k ts h)

pub occurs-append :
    (t : AwareDateTime) (xs ys : List AwareDateTime)
    → occurs t (xs ++ ys) ≡ (occurs t xs || occurs t ys)
occurs-append t [] ys = refl
occurs-append t (x ∷ xs) ys = ground (arith, occurs-append t xs ys)

-- A sorted list is sorted on both sides of an item, and the item lies between the sides.
pub record SplitsAt (m : AwareDateTime) (xs ys : List AwareDateTime) : Type 0 where
  pub lower : All (λ u. instant u ≤ instant m) xs
  pub upper : All (λ u. instant m ≤ instant u) ys
  pub sorted_lower : Sorted xs
  pub sorted_upper : Sorted ys

All-append_left :
    (P : AwareDateTime → Type 0) (xs ys : List AwareDateTime) → All P (xs ++ ys) → All P xs
All-append_left P [] ys h = tt
All-append_left P (x ∷ xs) ys (p, h) = (p, All-append_left P xs ys h)

All-append_mid :
    (P : AwareDateTime → Type 0) (xs : List AwareDateTime) (m : AwareDateTime)
    (ys : List AwareDateTime)
    → All P (xs ++ (m ∷ ys))
    → P m
All-append_mid P [] m ys (p, h) = p
All-append_mid P (x ∷ xs) m ys (p, h) = All-append_mid P xs m ys h

pub Sorted-SplitsAt :
    (m : AwareDateTime) (xs ys : List AwareDateTime) → Sorted (xs ++ (m ∷ ys)) → SplitsAt m xs ys
Sorted-SplitsAt m [] ys (above, h) = record {
  lower = tt;
  upper = above;
  sorted_lower = tt;
  sorted_upper = h;
}
Sorted-SplitsAt m (x ∷ xs) ys (above, h) =
    let s = Sorted-SplitsAt m xs ys h in
    record {
      lower = (All-append_mid (λ u. instant x ≤ instant u) xs m ys above, s.lower);
      upper = s.upper;
      sorted_lower =
          (All-append_left (λ u. instant x ≤ instant u) xs (m ∷ ys) above, s.sorted_lower);
      sorted_upper = s.sorted_upper;
    }

-- No date after a later second, and none before an earlier one, matches.
pub occurs_above :
    (t m : AwareDateTime) (ys : List AwareDateTime)
    → second_of t < second_of m
    → All (λ u. instant m ≤ instant u) ys
    → occurs t ys ≡ false
occurs_above t m [] h all = refl
occurs_above t m (y ∷ ys) h (p, all) = ground (arith, occurs_above t m ys h all)

pub occurs_below :
    (t m : AwareDateTime) (xs : List AwareDateTime)
    → second_of m < second_of t
    → All (λ u. instant u ≤ instant m) xs
    → occurs t xs ≡ false
occurs_below t m [] h all = refl
occurs_below t m (x ∷ xs) h (p, all) = ground (arith, occurs_below t m xs h all)
