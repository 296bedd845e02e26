-- ===== src/Protocol/Negotiation.antt =====
-- `negotiated_version` gives the best version of the service for the version that is asked for.
use mathlib.Core.List.{reverse-cons}
use datacube_ows.Base.{
  ◌≡◌, ◌≢◌, refl, sym, ap, ◌⊎◌, inl, inr, true, false, Option, none, some, List, [], ◌∷◌, ◌++◌,
  reverse, String, arith, Bool-cases, All, All-mono, if◌then◌else◌, ne→beq, string_eq, subst,
}
use datacube_ows.Base.Int.{ℤ}
use datacube_ows.Base.Text.{split}
use datacube_ows.Protocol.{
  ge_parts, SupportedSvcVersion, clean_version_parts, pad_parts, insert_version, sort_versions,
  first_at_most, from_newest, negotiated_version,
}
use datacube_ows.Protocol.Members.{negotiated_version-All}
use datacube_ows.Protocol.Order.{ge_parts_refl, ge_parts_trans, ge_parts_total}

abbrev pub V : Type 0
V = SupportedSvcVersion

-- `w` is not older than `v`.
abbrev pub Above : V → V → Type 0
Above v w = ge_parts w.version_parts v.version_parts ≡ true

abbrev Sorted : List V → Type 0
Sorted [] = Unit
Sorted (v ∷ vs) = All (Above v) vs × Sorted vs

module _ (P : V → Type 0) where
  All-insert_version : (v : V) (ws : List V) → P v → All P ws → All P (insert_version v ws)
  unfolding insert_version
  All-insert_version v [] p h = (p, tt)
  All-insert_version v (w ∷ ws) p (q, h) =
      elim (Bool-cases (ge_parts w.version_parts v.version_parts)) [
        | inl here ↦ rw here (p, (q, h))
        | inr later ↦ rw later (q, All-insert_version v ws p h)
      ]

  insert_version-All : (v : V) (ws : List V) → All P (insert_version v ws) → P v × All P ws
  unfolding insert_version
  insert_version-All v [] = λ h. h
  insert_version-All v (w ∷ ws) = elim (Bool-cases (ge_parts w.version_parts v.version_parts)) [
    | inl here ↦ rw here (λ h. h)
    | inr later ↦ rw later (λ (q, h). let (p, r) = insert_version-All v ws h in (p, (q, r)))
  ]

  sort_versions-All : (vs : List V) → All P (sort_versions vs) → All P vs
  unfolding sort_versions
  sort_versions-All [] h = tt
  sort_versions-All (v ∷ vs) h =
      let (p, r) = insert_version-All v (sort_versions vs) h in (p, sort_versions-All vs r)

insert_version-Sorted : (v : V) (ws : List V) → Sorted ws → Sorted (insert_version v ws)
unfolding insert_version
insert_version-Sorted v [] h = (tt, tt)
insert_version-Sorted v (w ∷ ws) (low, h) =
    elim (Bool-cases (ge_parts w.version_parts v.version_parts)) [
      | inl here ↦ rw here (
        (
          here,
          All-mono (Above w) (Above v) ws
              (λ x p. ge_parts_trans x.version_parts w.version_parts v.version_parts p here) low,
        ),
        (low, h),
      )
      | inr later ↦ rw later (
        All-insert_version (Above w) v ws (ge_parts_total w.version_parts v.version_parts later)
            low,
        insert_version-Sorted v ws h,
      )
    ]

sort_versions-Sorted : (vs : List V) → Sorted (sort_versions vs)
unfolding sort_versions
sort_versions-Sorted [] = tt
sort_versions-Sorted (v ∷ vs) = insert_version-Sorted v _ (sort_versions-Sorted vs)

module _ (rv : List ℤ) where
  first_match : List V → Option V
  first_match [] = none
  first_match (w ∷ ws) = if ge_parts rv w.version_parts then some w else first_match ws

  abbrev or_else : Option V → V → V
  or_else none v = v
  or_else (some w) v = w

  first_at_most-concat :
      (w : V) (ws : List V) (v : V)
      → first_at_most rv w (ws ++ v ∷ []) ≡ or_else (first_match (w ∷ ws)) v
  unfolding first_at_most first_match
  first_at_most-concat w [] v = ground arith
  first_at_most-concat w (u ∷ us) v = ground (arith, first_at_most-concat u us v)

  from_newest-concat :
      (ws : List V) (v : V) → from_newest rv (ws ++ v ∷ []) ≡ some (or_else (first_match ws) v)
  unfolding first_at_most first_match
  from_newest-concat [] v = refl
  from_newest-concat (w ∷ ws) v = ap some (first_at_most-concat w ws v)

  first_match-concat :
      (ws : List V) (v : V)
      → first_match (ws ++ v ∷ []) ≡ elim (first_match ws) [
        | some w ↦ some w
        | none ↦ if ge_parts rv v.version_parts then some v else none
      ]
  unfolding first_match
  first_match-concat [] v = ground arith
  first_match-concat (w ∷ ws) v = ground (arith, first_match-concat ws v)

  abbrev Misses : V → Type 0
  Misses w = ge_parts rv w.version_parts ≡ false

  -- What the search of a sorted list from its end has found.
  abbrev Found : List V → Option V → Type 0
  Found vs none = All Misses vs
  Found vs (some v) =
      (ge_parts rv v.version_parts ≡ true)
      × All (λ w. ge_parts rv w.version_parts ≡ true → Above w v) vs
      × ((y : V) → All (Above y) vs → Above y v)

  first_match-Found : (vs : List V) → Sorted vs → Found vs (first_match (reverse vs))
  unfolding first_match
  first_match-Found [] h = tt
  first_match-Found (v ∷ vs) (low, h) =
      rw (reverse-cons, first_match-concat) (go (first_match (reverse vs)) (first_match-Found vs h))
    where
      go :
          (o : Option V)
          → Found vs o
          → Found (v ∷ vs) (elim o [
            | some w ↦ some w
            | none ↦ if ge_parts rv v.version_parts then some v else none
          ])
      go (some w) (hit, best, top) = (hit, ((λ _. top v low), best), λ y (p, q). top y q)
      go none missed = elim (Bool-cases (ge_parts rv v.version_parts)) [
        | inl hit ↦ rw hit (
          hit,
          (
            (λ _. ge_parts_refl v.version_parts),
            All-mono Misses (λ w. ge_parts rv w.version_parts ≡ true → Above w v) vs
                (λ w miss hit'. cc) missed,
          ),
          λ y (p, q). p,
        )
        | inr miss ↦ rw miss (miss, missed)
      ]

-- The best of the versions `vs` for the version `rv` that is asked for: the newest of those that
-- are not newer than `rv`, or the oldest of all if there is no such version.
abbrev pub Best : List ℤ → List V → V → Type 0
Best rv vs v =
    ((ge_parts rv v.version_parts ≡ true)
      × All (λ w. ge_parts rv w.version_parts ≡ true → Above w v) vs)
    ⊎ (All (λ w. ge_parts rv w.version_parts ≡ false) vs × All (Above v) vs)

from_newest-Best :
    (rv : List ℤ) (v : V) (vs : List V)
    → Sorted (v ∷ vs)
    → (w : V) × (from_newest rv (reverse (v ∷ vs)) ≡ some w) × Best rv (v ∷ vs) w
from_newest-Best rv v vs (low, h) = (
  or_else rv (first_match rv (reverse vs)) v,
  rw reverse-cons (from_newest-concat rv (reverse vs) v),
  go (first_match rv (reverse vs)) (first_match-Found rv vs h),
)
  where
    go : (o : Option V) → Found rv vs o → Best rv (v ∷ vs) (or_else rv o v)
    go (some w) (hit, best, top) = inl (hit, ((λ _. top v low), best))
    go none missed = elim (Bool-cases (ge_parts rv v.version_parts)) [
      | inl hit ↦ inl (
        hit,
        (
          (λ _. ge_parts_refl v.version_parts),
          All-mono (Misses rv) (λ w. ge_parts rv w.version_parts ≡ true → Above w v) vs
              (λ w miss hit'. cc) missed,
        ),
      )
      | inr miss ↦ inr ((miss, missed), (ge_parts_refl v.version_parts, low))
    ]

insert_version-cons :
    (v : V) (ws : List V) → (u : V) × (us : List V) × (insert_version v ws ≡ u ∷ us)
unfolding insert_version
insert_version-cons v [] = (v, [], refl)
insert_version-cons v (w ∷ ws) = elim (Bool-cases (ge_parts w.version_parts v.version_parts)) [
  | inl here ↦ (v, w ∷ ws, rw here)
  | inr later ↦ (w, insert_version v ws, rw later)
]

-- The version that the text of a request asks for.
abbrev pub asked : String → List ℤ
asked request = pad_parts (clean_version_parts (split b'.' request))

Best-sort_versions :
    (rv : List ℤ) (vs : List V) (w : V) → Best rv (sort_versions vs) w → Best rv vs w
Best-sort_versions rv vs w (inl (hit, best)) = inl (hit, sort_versions-All _ vs best)
Best-sort_versions rv vs w (inr (miss, low)) =
    inr (sort_versions-All _ vs miss, sort_versions-All _ vs low)

negotiated-Best :
    (v : V) (vs : List V) (request : String)
    → request ≢ ""
    → (w : V) × (negotiated_version (sort_versions (v ∷ vs)) (some request) ≡ some w)
      × Best (asked request) (v ∷ vs) w
unfolding negotiated_version sort_versions
negotiated-Best v vs request asks =
    let (u, us, e) = insert_version-cons v (sort_versions vs) in
    let sorted : Sorted (u ∷ us) = subst Sorted e (sort_versions-Sorted (v ∷ vs)) in
    let (w, found, best) = from_newest-Best (asked request) u us sorted in
    (
      w,
      rw (ne→beq request "" asks) (rw e found),
      Best-sort_versions (asked request) (v ∷ vs) w
          (subst (λ ws. Best (asked request) ws w) (sym e) best),
    )

-- A version is one of a list.
abbrev pub OneOf : V → List V → Type 0
OneOf w [] = ⊥
OneOf w (v ∷ vs) = (w ≡ v) ⊎ OneOf w vs

OneOf-All : (vs all : List V) → ((w : V) → OneOf w vs → OneOf w all) → All (λ w. OneOf w all) vs
OneOf-All [] all h = tt
OneOf-All (v ∷ vs) all h = (h v (inl refl), OneOf-All vs all (λ w i. h w (inr i)))

All-sort_versions : (P : V → Type 0) (vs : List V) → All P vs → All P (sort_versions vs)
unfolding sort_versions
All-sort_versions P [] h = tt
All-sort_versions P (v ∷ vs) (p, h) =
    All-insert_version P v (sort_versions vs) p (All-sort_versions P vs h)

-- Negotiation always gives one of the listed versions of a service that has one, in whatever order they
-- are listed: for a request with a version it is the newest that is not newer than what is asked for,
-- or the oldest of all where every version is newer.
pub negotiated_version-Best :
    (v : V) (vs : List V) (request : String)
    → request ≢ ""
    → (w : V) × (negotiated_version (sort_versions (v ∷ vs)) (some request) ≡ some w)
      × OneOf w (v ∷ vs)
      × Best (asked request) (v ∷ vs) w
unfolding negotiated_version
negotiated_version-Best v vs request asks =
    let (w, found, best) = negotiated-Best v vs request asks in
    let all : All (λ u. OneOf u (v ∷ vs)) (sort_versions (v ∷ vs)) =
      All-sort_versions (λ u. OneOf u (v ∷ vs)) (v ∷ vs) (OneOf-All (v ∷ vs) (v ∷ vs) (λ u i. i)) in
    (
      w,
      found,
      negotiated_version-All (λ u. OneOf u (v ∷ vs)) (sort_versions (v ∷ vs)) (some request) w all
          found,
      best,
    )
