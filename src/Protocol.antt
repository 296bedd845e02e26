-- ===== src/Protocol.antt =====
-- Version negotiation (datacube_ows/protocol_versions.py) and the routing of a request to a service
-- (`ogc_impl`, `ogc_svc_impl` of datacube_ows/ogc.py).
pub mod Order
pub mod Members
pub mod Negotiation
pub mod Routing
mod Tests
use datacube_ows.Base.{
  ℕ, ◌<◌, Bool, true, false, ◌&&◌, ◌||◌, not, Option, none, some, List, [], ◌∷◌, ◌++◌, map, reverse,
  String, ◌==◌, nat_eq, string_eq, if◌then◌else◌, length, ltb, replicate, ◌-◌,
}
use datacube_ows.Base.Int.{ℤ, pos, ltb_ℤ, leb_ℤ}
use datacube_ows.Base.Text.{codes, split}
use datacube_ows.Base.Decimal.{is_digit, py_int}

-- `a >= b` on lists of integers, as Python compares them: lexicographic, and a longer list is above
-- its own start.
pub ge_parts : List ℤ → List ℤ → Bool
ge_parts xs [] = true
ge_parts [] (y ∷ ys) = false
ge_parts (x ∷ xs) (y ∷ ys) = ltb_ℤ y x || (leb_ℤ y x && ge_parts xs ys)

-- The handler of a service version, and the class of exception that it answers with.
pub data Router : Type 0 where
  handle_wms handle_wmts handle_wcs1 handle_wcs2 : Router

pub data ExceptionClass : Type 0 where
  wms_exception wmts_exception wcs1_exception wcs2_exception : ExceptionClass

pub record SupportedSvcVersion : Type 0 where
  pub service : String
  pub version_parts : List ℤ
  pub router : Router
  pub exception_class : ExceptionClass

-- `re.split(r"[^\d]", part)[0]`: the digits before the first character that is none.
leading_digits : List ℕ → List ℕ
leading_digits [] = []
leading_digits (c ∷ cs) = let rest = leading_digits cs in if is_digit c then c ∷ rest else []

abbrev singleton? : Option ℤ → List ℤ
singleton? none = []
singleton? (some z) = z ∷ []

-- The loop goes on while the parts are integers, and stops at the first that is none, of which the
-- leading digits are kept.
pub clean_version_parts : List String → List ℤ
unfolding leading_digits py_int is_digit
clean_version_parts [] = []
clean_version_parts (part ∷ rest) =
    let more = clean_version_parts rest in
    elim (py_int (codes part)) [
      | some z ↦ z ∷ more
      | none ↦ singleton? (py_int (leading_digits (codes part)))
    ]

-- `while len(rv_parts) < 3: rv_parts.append(0)`
pub pad_parts : List ℤ → List ℤ
pad_parts parts = parts ++ replicate (3 - length parts) (pos 0)

-- `sorted(versions, key=lambda x: x.version_parts)`: stable, ascending.
pub insert_version : SupportedSvcVersion → List (SupportedSvcVersion) → List (SupportedSvcVersion)
insert_version v [] = v ∷ []
insert_version v (w ∷ ws) =
    if ge_parts w.version_parts v.version_parts then v ∷ w ∷ ws else w ∷ insert_version v ws

pub sort_versions : List (SupportedSvcVersion) → List (SupportedSvcVersion)
unfolding insert_version ge_parts
sort_versions [] = []
sort_versions (v ∷ vs) = insert_version v (sort_versions vs)

-- `for v in reversed(self.versions): if rv_parts >= v.version_parts: return v`, then `return v`.
pub first_at_most : List ℤ → SupportedSvcVersion → List (SupportedSvcVersion) → SupportedSvcVersion
first_at_most rv v [] = v
first_at_most rv v (w ∷ ws) =
    let next = first_at_most rv w ws in if ge_parts rv v.version_parts then v else next

abbrev pub from_newest : List ℤ → List (SupportedSvcVersion) → Option (SupportedSvcVersion)
from_newest rv [] = none
from_newest rv (v ∷ vs) = some (first_at_most rv v vs)

abbrev pub head_of : List (SupportedSvcVersion) → Option (SupportedSvcVersion)
head_of [] = none
head_of (v ∷ vs) = some v

-- `negotiated_version` on the sorted versions of the service; `none` only where there are none,
-- which the constructor of SupportedSvc rules out. No version, or an empty one, asks for the newest.
pub negotiated_version : List (SupportedSvcVersion) → Option String → Option (SupportedSvcVersion)
unfolding pad_parts clean_version_parts first_at_most ge_parts
negotiated_version versions none = head_of (reverse versions)
negotiated_version versions (some request) =
    if request == ""
    then head_of (reverse versions)
    else from_newest (pad_parts (clean_version_parts (split b'.' request))) (reverse versions)
