-- ===== src/Protocol/Members.antt =====
-- What holds of all versions of a service holds of the negotiated one.
use mathlib.Core.List.{reverse-cons}
use datacube_ows.Base.{
  ◌≡◌, sym, subst, inl, inr, Option, none, some, List, [], ◌∷◌, ◌++◌, reverse, String, string_eq,
  ◌==◌, Bool-cases, All, arith,
}
use datacube_ows.Base.Int.{ℤ}
use datacube_ows.Base.Text.{split}
use datacube_ows.Protocol.{
  pad_parts, clean_version_parts, ge_parts, SupportedSvcVersion, first_at_most, negotiated_version,
  from_newest, head_of,
}

abbrev asked_parts : String → List ℤ
asked_parts request = pad_parts (clean_version_parts (split b'.' request))

module _ (P : SupportedSvcVersion → Type 0) where
  pub first_at_most-All :
      (rv : List ℤ) (v : SupportedSvcVersion) (ws : List SupportedSvcVersion)
      → P v
      → All P ws
      → P (first_at_most rv v ws)
  unfolding first_at_most
  first_at_most-All rv v [] p h = p
  first_at_most-All rv v (w ∷ ws) p (q, h) = elim (Bool-cases (ge_parts rv v.version_parts)) [
    | inl here ↦ rw here p
    | inr later ↦ rw later (first_at_most-All rv w ws q h)
  ]

  pub All-concat :
      (vs : List SupportedSvcVersion) (v : SupportedSvcVersion)
      → All P vs
      → P v
      → All P (vs ++ v ∷ [])
  All-concat [] v h p = (p, tt)
  All-concat (w ∷ ws) v (q, h) p = (q, All-concat ws v h p)

  pub All-reverse : (vs : List SupportedSvcVersion) → All P vs → All P (reverse vs)
  All-reverse [] h = tt
  All-reverse (v ∷ vs) (p, h) =
      subst (All P) (sym (reverse-cons v vs)) (All-concat (reverse vs) v (All-reverse vs h) p)

  pub head_of-All :
      (vs : List SupportedSvcVersion) (v : SupportedSvcVersion)
      → All P vs
      → head_of vs ≡ some v
      → P v
  head_of-All [] v h e = ground arith
  head_of-All (w ∷ ws) v (p, h) e = subst P (ground arith) p

  pub from_newest-All :
      (rv : List ℤ) (vs : List SupportedSvcVersion) (v : SupportedSvcVersion)
      → All P vs
      → from_newest rv vs ≡ some v
      → P v
  from_newest-All rv [] v h e = ground arith
  from_newest-All rv (w ∷ ws) v (p, h) e = subst P (ground arith) (first_at_most-All rv w ws p h)

  pub negotiated_version-All :
      (vs : List SupportedSvcVersion) (request : Option String) (v : SupportedSvcVersion)
      → All P vs
      → negotiated_version vs request ≡ some v
      → P v
  unfolding negotiated_version
  negotiated_version-All vs none v h e = head_of-All (reverse vs) v (All-reverse vs h) e
  negotiated_version-All vs (some request) v h e = elim (Bool-cases (request == "")) [
    | inl empty ↦ head_of-All (reverse vs) v (All-reverse vs h) (ground (arith, e, empty))
    | inr given ↦
        from_newest-All (asked_parts request) (reverse vs) v (All-reverse vs h)
          (ground (arith, e, given))
  ]
