-- ===== src/Base/Dicts.antt =====
-- A Python dict: an association list in insertion order, keyed by a type with `==`.
use datacube_ows.Base.Lists.{All}
use mathlib.Core.Logic.{inl, inr}
use datacube_ows.Base.Tests.{Bool-cases, Eq, ◌==◌, if◌then◌else◌}
use mathlib.Core.Path.{◌≡◌, refl, subst}
use mathlib.Core.Bool.{Bool, true, false, ◌||◌}
use mathlib.Core.Option.{Option, none, some}
use mathlib.Core.List.{List, [], ◌∷◌}
use native.Mathlib.Omega.{arith}

abbrev pub Dict {ℓ κ} : Type ℓ → Type κ → Type (ℓ ⊔ κ)
Dict K V = List (K × V)

module _ {ℓ} {K : Type ℓ} ⦃e : Eq K⦄ where
  -- `k in ks`
  abbrev pub contains : K → List K → Bool
  contains k [] = false
  contains k (j ∷ ks) = k == j || contains k ks

  module _ {κ} {V : Type κ} where
    -- `d.get(k)`
    abbrev pub lookup : K → Dict K V → Option V
    lookup k [] = none
    lookup k ((j, v) ∷ d) = if k == j then some v else lookup k d

    -- `k in d`
    abbrev pub has_key : K → Dict K V → Bool
    has_key k d = elim (lookup k d) [ none ↦ false | some _ ↦ true ]

    -- `d[k] = v`
    abbrev pub insert : K → V → Dict K V → Dict K V
    insert k v [] = (k, v) ∷ []
    insert k v ((j, w) ∷ d) = if k == j then (j, v) ∷ d else (j, w) ∷ insert k v d

    pub lookup-insert :
        (j k : K) (v : V) (d : Dict K V)
        → lookup j (insert k v d) ≡ (if j == k then some v else lookup j d)
    lookup-insert j k v [] = refl
    lookup-insert j k v ((i, w) ∷ d) =
        ground (arith, e.beq_iff j k, e.beq_iff k i, e.beq_iff j i, lookup-insert j k v d)

    -- What holds of every value holds of the one that a key leads to.
    pub lookup-All {μ} :
        (P : V → Type μ) (k : K) (v : V) (d : Dict K V)
        → All (λ e. P e.1) d
        → lookup k d ≡ some v
        → P v
    lookup-All P k v [] h e = ground arith
    lookup-All P k v ((j, w) ∷ d) (p, h) e = elim (Bool-cases (k == j)) [
      | inl same ↦ subst P (ground arith) p
      | inr other ↦ lookup-All P k v d h (ground arith)
    ]
