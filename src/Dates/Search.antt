-- ===== src/Dates/Search.antt =====
-- The binary search of `find_matching_date` against a search of the whole list.
use datacube_ows.Base.{
  ℕ, zero, suc, ◌≤◌, ◌/◌, ◌≡◌, refl, ap, ◌∙◌, ◌||◌, List, [], ◌∷◌, arith, take, drop, length,
  length-take, length-drop, subst, get_elem?-some,
}
use datacube_ows.Dates.{
  DateTime, AwareDateTime, default_to_utc, range_start, range_end, find_in, find_matching_date,
}
use datacube_ows.Dates.Matching.{
  Sorted, occurs, split_at, occurs-append, Sorted-SplitsAt, occurs_above, occurs_below,
}

find_in-occurs :
    (fuel : ℕ) (t : AwareDateTime) (region : List AwareDateTime)
    → length region ≤ fuel
    → Sorted region
    → find_in fuel t region ≡ occurs t region
unfolding find_in range_start range_end
find_in-occurs zero t [] h s = refl
find_in-occurs zero t (x ∷ xs) h s = elim h [ ]
find_in-occurs (suc fuel) t [] h s = refl
find_in-occurs (suc fuel) t (x ∷ xs) h s =
    let k = length (x ∷ xs) / 2 in
    let lo = take k (x ∷ xs) in
    let hi = drop (suc k) (x ∷ xs) in
    let (m, e) = get_elem?-some k (x ∷ xs) (omega arith) in
    let parts = split_at k (x ∷ xs) e in
    let sides = Sorted-SplitsAt m lo hi (subst Sorted parts s) in
    let found : occurs t (x ∷ xs) ≡ (occurs t lo || occurs t (m ∷ hi)) =
      ap (occurs t) parts ∙ occurs-append t lo (m ∷ hi) in
    rw (e, find_in, found)
      (ground (
        arith,
        find_in-occurs fuel t lo (omega (arith, length-take k (x ∷ xs))) sides.sorted_lower,
        find_in-occurs fuel t hi (omega (arith, length-drop (suc k) (x ∷ xs))) sides.sorted_upper,
        occurs_above t m hi,
        occurs_below t m lo,
        sides.lower,
        sides.upper,
      ))

-- On the sorted dates of a layer the binary search finds a match exactly if some date of the list
-- lies in the same whole second as the datetime, taken to be in UTC if it is naive.
pub find_matching_date-occurs :
    (dt : DateTime) (dates : List AwareDateTime)
    → Sorted dates
    → find_matching_date dt dates ≡ occurs (default_to_utc dt) dates
unfolding find_matching_date
find_matching_date-occurs dt dates s =
    find_in-occurs (length dates) (default_to_utc dt) dates (omega arith) s
