-- ===== src/Wms/Tests.antt =====
-- Runs of the times of a WMS request.
use datacube_ows.Base.{
  ℕ, ◌+◌, ◌-◌, ◌≡◌, refl, false, none, some, [], ◌∷◌, String, string_eq, nat_eq, ◌==◌,
  if◌then◌else◌, ok, err, Option,
}
use datacube_ows.Wms.Times.{
  Calendar, LayerTimes, invalid_time, single_time, parse_time_item, get_times,
}
use datacube_ows.Base.Text.{split}
use datacube_ows.Wms.Times.Meaning.{Means, parse_time_item-Means}

abbrev year : String → Option ℕ
year s = if s == "2020" then some 2020 else if s == "2021" then some 2021 else none

abbrev years : Calendar ℕ
years = record {
  utcnow = 2024;
  parse_period = λ s. if s == "P2Y" then some 2 else none;
  parse_start = year;
  parse_end = year;
  parse_time = year;
  has_zone = λ _. false;
  after = λ t p. t + p;
  before = λ t p. t - p;
  day_of = λ t. t;
  microseconds_per_day = 1;
}

abbrev yearly : LayerTimes
yearly = record {
  is_subday = false;
  times = 2018 ∷ 2020 ∷ 2023 ∷ [];
  regular_time_axis = none;
  has_match = λ _. false;
}

in_range : parse_time_item years yearly "2020/P2Y" ≡ ok 2020
unfolding parse_time_item
in_range = refl

latest : get_times years yearly [] ≡ ok (2023 ∷ [])
unfolding get_times
latest = refl

not_there : parse_time_item years yearly "2021" ≡ err invalid_time
unfolding parse_time_item single_time
not_there = refl

parse_time_item-Means_example : Means years yearly (split b'/' "2020/P2Y") 2020
parse_time_item-Means_example = parse_time_item-Means years yearly "2020/P2Y" 2020 in_range
