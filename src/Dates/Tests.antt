-- ===== src/Dates/Tests.antt =====
-- Runs of the search for a date.
use datacube_ows.Base.{◌≡◌, refl, List, [], ◌∷◌, some, none, arith, ℕ, true, false, ◌*◌, ◌+◌}
use datacube_ows.Dates.{DateTime, AwareDateTime, second, utc, default_to_utc, find_matching_date}
use datacube_ows.Dates.Matching.{occurs}
use datacube_ows.Dates.Search.{find_matching_date-occurs}

abbrev at : ℕ → ℕ → AwareDateTime
at s micros = record { wall = s * second + micros; behind = utc }

abbrev dates : List AwareDateTime
dates = at 100 5 ∷ at 160 0 ∷ at 161 999_999 ∷ at 400 20 ∷ []

abbrev naive : ℕ → ℕ → DateTime
naive s micros = record { wall = s * second + micros; tzinfo = none }

same_second : find_matching_date (naive 161 3) dates ≡ true
unfolding find_matching_date
same_second = refl

next_second : find_matching_date (naive 162 0) dates ≡ false
unfolding find_matching_date
next_second = refl

-- Ten hours ahead of UTC: the wall clock is 36000 seconds on.
other_zone : find_matching_date (record { wall = 36400 * second; tzinfo = some 50400 }) dates ≡ true
unfolding find_matching_date
other_zone = refl

find_matching_date-occurs_example :
    find_matching_date (naive 161 3) dates ≡ occurs (default_to_utc (naive 161 3)) dates
find_matching_date-occurs_example = find_matching_date-occurs (naive 161 3) dates (omega arith)
