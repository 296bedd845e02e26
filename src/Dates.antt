-- ===== src/Dates.antt =====
-- Dates and times (datacube_ows/utils.py and datacube_ows/time_utils.py). A datetime is its wall
-- clock in microseconds and its time zone, None for a naive one; a zone is given by how far it lies
-- behind UTC+24h, in seconds, a natural since Python keeps offsets below a day. The dates of a
-- layer with sub-day resolution are aware of their zone.
pub mod Matching
pub mod Search
pub mod Ranges
mod Tests
use datacube_ows.Base.{
  ℕ, zero, suc, ◌+◌, ◌*◌, ◌/◌, Bool, true, false, ◌&&◌, Option, none, some, List, [], ◌∷◌, ltb, leb,
  length, get_elem?, take, drop, if◌then◌else◌,
}

abbrev pub second : ℕ
second = 1_000_000

pub record DateTime : Type 0 where
  pub wall : ℕ
  pub tzinfo : Option ℕ

pub record AwareDateTime : Type 0 where
  pub wall : ℕ
  pub behind : ℕ

-- The point in time by which Python compares aware datetimes.
abbrev pub instant : AwareDateTime → ℕ
instant t = t.wall + t.behind * second

abbrev pub utc : ℕ
utc = 86400

pub default_to_utc : DateTime → AwareDateTime
default_to_utc dt = elim dt.tzinfo [
  | none ↦ record { wall = dt.wall; behind = utc }
  | some z ↦ record { wall = dt.wall; behind = z }
]

-- `range_of`: the whole second that holds a datetime, from its start up to before its end.
pub range_start : AwareDateTime → AwareDateTime
range_start t = record t { wall = t.wall / second * second }

pub range_end : AwareDateTime → AwareDateTime
unfolding range_start
range_end t = record t { wall = (range_start t).wall + second }

-- The `while` loop of `find_matching_date`, with the length of the region as fuel.
pub find_in : ℕ → AwareDateTime → List AwareDateTime → Bool
unfolding range_end
find_in zero dt region = false
find_in (suc fuel) dt region =
    let splitter = length region / 2 in
    let lower = find_in fuel dt (take splitter region) in
    let upper = find_in fuel dt (drop (suc splitter) region) in
    elim (get_elem? region splitter) [
      | none ↦ false
      | some mid ↦
          if leb (instant (range_start mid)) (instant dt)
            && ltb (instant dt) (instant (range_end mid))
          then true
          else if ltb (instant dt) (instant (range_start mid))
          then lower
          else upper
    ]

unfoldable pub find_matching_date : DateTime → List AwareDateTime → Bool
unfolding find_in default_to_utc
find_matching_date dt dates = find_in (length dates) (default_to_utc dt) dates
