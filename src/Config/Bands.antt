-- ===== src/Config/Bands.antt =====
-- `class BandIndex` (datacube_ows/ows_configuration.py): band names and their aliases.
pub mod Aliases
pub mod Measurements
use datacube_ows.Base.{
  Bool, true, false, ◌&&◌, not, Option, none, some, List, [], ◌∷◌, String, Result, ok, err, ◌>>=◌,
  ◌>>◌, raise_if, or_raise, Dict, lookup, insert, has_key, ◌==◌, string_eq, if◌then◌else◌,
}

pub data BandError : Type 0 where
  duplicate_band unknown_band : String → BandError

-- The inner loop of `add_aliases`.
pub add_band_aliases :
    String → List String → Dict String String → Result BandError (Dict String String)
add_band_aliases b [] idx = ok idx
add_band_aliases b (a ∷ aliases) idx =
    raise_if (not (a == b) && has_key a idx) (duplicate_band a)
    >> add_band_aliases b aliases (insert a b idx)

unfoldable pub add_aliases :
    Dict String (List String) → Dict String String → Result BandError (Dict String String)
unfolding add_band_aliases
add_aliases [] idx = ok idx
add_aliases ((b, aliases) ∷ cfg) idx =
    raise_if (has_key b idx) (duplicate_band b)
    >> (add_band_aliases b aliases (insert b b idx) >>= λ idx'. add_aliases cfg idx')

-- `band`
unfoldable pub band : Dict String String → String → Result BandError String
band idx name_alias = or_raise (lookup name_alias idx) (unknown_band name_alias)

-- The loop of `locale_band`; `label` is `band_label`, which reads the metadata of a band.
find_label : (String → Option String) → String → List String → Result BandError String
find_label label name [] = err (unknown_band name)
find_label label name (b ∷ bs) =
    let rest = find_label label name bs in
    elim (label b) [ none ↦ rest | some l ↦ if name == l then ok b else rest ]

pub band_names : Dict String (List String) → List String
band_names [] = []
band_names ((b, _) ∷ cfg) = b ∷ band_names cfg

-- `locale_band`
unfoldable pub locale_band :
    (String → Option String)
    → Dict String (List String)
    → Dict String String
    → String
    → Result BandError String
unfolding band find_label band_names
locale_band label cfg idx name = elim (band idx name) [
  | ok b ↦ ok b
  | err _ ↦ find_label label name (band_names cfg)
]
