-- ===== src/Config/Bands/Aliases.antt =====
-- What an index built by `add_aliases` gives.
use datacube_ows.Base.{
  ◌≡◌, some, List, [], ◌∷◌, String, ok, >>=-eq-ok, raise_if, Dict, lookup, insert, has_key,
  lookup-insert, string_eq, All, All-mono, arith,
}
use datacube_ows.Config.Bands.{BandError, add_band_aliases, add_aliases, band}

abbrev pub Index : Type 0
Index = Dict String String

-- What the first index gives, the second gives too.
abbrev Extends : Index → Index → Type 0
Extends idx idx' = (k b : String) → lookup k idx ≡ some b → lookup k idx' ≡ some b

-- The aliases of a band are all given to it, and nothing that stood in the index changes.
record Adds (b : String) (aliases : List String) (idx idx' : Index) : Type 0 where
  extends : Extends idx idx'
  aliased : All (λ a. lookup a idx' ≡ some b) aliases

add_band_aliases-Adds :
    (b : String) (aliases : List String) (idx idx' : Index)
    → lookup b idx ≡ some b
    → add_band_aliases b aliases idx ≡ ok idx'
    → Adds b aliases idx idx'
unfolding add_band_aliases
add_band_aliases-Adds b [] idx idx' own h = record { extends = λ k c e. ground arith; aliased = tt }
add_band_aliases-Adds b (a ∷ aliases) idx idx' own h =
    let rest : add_band_aliases b aliases (insert a b idx) ≡ ok idx' = ground arith in
    let own' : lookup b (insert a b idx) ≡ some b = ground (arith, own, lookup-insert b a b idx) in
    let later = add_band_aliases-Adds b aliases (insert a b idx) idx' own' rest in
    record {
      extends = λ k c e. later.extends k c (
          ground
            (arith, e, own, lookup-insert k a b idx, string_eq.beq_iff k a, string_eq.beq_iff a b));
      aliased = (
        later.extends a b (ground (arith, lookup-insert a a b idx, string_eq.beq_iff a a)),
        later.aliased,
      );
    }

-- Every band of a configuration, with its aliases, is found under its own name.
abbrev pub Indexed : Index → Dict String (List String) → Type 0
Indexed idx [] = Unit
Indexed idx ((b, aliases) ∷ cfg) =
    (band idx b ≡ ok b) × All (λ a. band idx a ≡ ok b) aliases × Indexed idx cfg

band_found : (k b : String) (idx : Index) → lookup k idx ≡ some b → band idx k ≡ ok b
unfolding band
band_found k b idx h = rw h

record Builds (cfg : Dict String (List String)) (idx idx' : Index) : Type 0 where
  extends : Extends idx idx'
  indexed : Indexed idx' cfg

add_aliases-Builds :
    (cfg : Dict String (List String)) (idx idx' : Index)
    → add_aliases cfg idx ≡ ok idx'
    → Builds cfg idx idx'
unfolding add_aliases
add_aliases-Builds [] idx idx' h = record { extends = λ k c e. ground arith; indexed = tt }
add_aliases-Builds ((b, aliases) ∷ cfg) idx idx' h =
    let (_, fresh, k) = >>=-eq-ok (raise_if (has_key b idx) (BandError.duplicate_band b)) _ h in
    let (mid, added, rest) = >>=-eq-ok (add_band_aliases b aliases (insert b b idx)) _ k in
    let own : lookup b (insert b b idx) ≡ some b =
      ground (arith, lookup-insert b b b idx, string_eq.beq_iff b b) in
    let first = add_band_aliases-Adds b aliases (insert b b idx) mid own added in
    let later = add_aliases-Builds cfg mid idx' rest in
    record {
      extends = λ j c e. later.extends j c (
          first.extends j c
            (ground (arith, e, fresh, lookup-insert j b b idx, string_eq.beq_iff j b)));
      indexed = (
        band_found b b idx' (later.extends b b (first.extends b b own)),
        All-mono (λ a. lookup a mid ≡ some b) (λ a. band idx' a ≡ ok b) aliases
            (λ a e. band_found a b idx' (later.extends a b e)) first.aliased,
        later.indexed,
      );
    }

-- If the configuration of the bands is accepted, then every band is found under its own name and
-- under each of its aliases, so that no alias leads to another band than the one it is listed for.
pub add_aliases-Indexed :
    (cfg : Dict String (List String)) (idx : Index) → add_aliases cfg [] ≡ ok idx → Indexed idx cfg
add_aliases-Indexed cfg idx h = (add_aliases-Builds cfg [] idx h).indexed
