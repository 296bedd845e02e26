-- ===== src/Config/FlagBands/Groups/Kept.antt =====
-- Grouping by products: which bands of the list the groups have in the end.
use datacube_ows.Base.{
  subst, ◌≡◌, ◌≢◌, refl, sym, ◌∙◌, ◌⊎◌, inl, inr, some, List, [], ◌∷◌, String, string_eq, ok, ◌==◌,
  >>=-eq-ok, Bool-cases, All, Dict, insert, lookup, lookup-insert, arith,
}
use datacube_ows.Config.FlagBands.{
  FlagBand, FlagProductBands, names_equal, new_group, products_match, add_flag_band, place,
  place_all, build_list_from_masks,
}
use datacube_ows.Config.FlagBands.Groups.{
  names_equal_iff, Added, add_flag_band-Added, InGroup, Distinct, place_all-groups,
}

-- A group has this very band: its products, the band under its name, and its time handling.
abbrev pub Has : FlagBand → FlagProductBands → Type 0
Has g fp =
    (fp.product_names ≡ g.pq_names)
    × (lookup g.pq_band fp.flag_bands ≡ some g)
    × (fp.ignore_time ≡ g.pq_ignore_time)

abbrev pub Stands : FlagBand → List FlagProductBands → Type 0
Stands g [] = ⊥
Stands g (fp ∷ fps) = Has g fp ⊎ Stands g fps

-- One of the bands has the name and the products of this one.
abbrev pub Same : FlagBand → FlagBand → Type 0
Same g fb = (fb.pq_band ≡ g.pq_band) × (fb.pq_names ≡ g.pq_names)

abbrev pub Replaced : FlagBand → List FlagBand → Type 0
Replaced g [] = ⊥
Replaced g (fb ∷ fbs) = Same g fb ⊎ Replaced g fbs

-- Each band of the list stands in a group, or a later one takes its place.
abbrev pub Kept : List FlagBand → List FlagProductBands → Type 0
Kept [] fps = Unit
Kept (fb ∷ fbs) fps = (Replaced fb fbs ⊎ Stands fb fps) × Kept fbs fps

-- The same, of the bands of some products only.
abbrev pub KeptOf : List String → List FlagBand → List FlagProductBands → Type 0
KeptOf names [] fps = Unit
KeptOf names (fb ∷ fbs) fps =
    ((fb.pq_names ≢ names) ⊎ (Replaced fb fbs ⊎ Stands fb fps)) × KeptOf names fbs fps

-- All bands under names are of some products.
abbrev pub OnlyOf : List String → Dict String FlagBand → Type 0
OnlyOf names d = All (λ (_, g). g.pq_names ≡ names) d

pub insert-OnlyOf :
    (names : List String) (k : String) (g : FlagBand) (d : Dict String FlagBand)
    → g.pq_names ≡ names
    → OnlyOf names d
    → OnlyOf names (insert k g d)
insert-OnlyOf names k g [] own all = (own, tt)
insert-OnlyOf names k g ((j, w) ∷ d) own (first, all) = elim (Bool-cases (k == j)) [
  | inl same ↦ rw same (own, all)
  | inr other ↦ rw other (first, insert-OnlyOf names k g d own all)
]

pub Added-Has_new :
    (fb : FlagBand) (fp fp' : FlagProductBands)
    → Added fb fp fp'
    → fp.product_names ≡ fb.pq_names
    → Has fb fp'
Added-Has_new fb fp fp' a h = (
  a.names ∙ h,
  rw a.flags (
      ground (
        arith,
        lookup-insert fb.pq_band fb.pq_band fb fp.flag_bands,
        string_eq.beq_iff fb.pq_band fb.pq_band,
      )),
  a.time ∙ a.same_time,
)

pub Added-Has_old :
    (fb g : FlagBand) (fp fp' : FlagProductBands)
    → Added fb fp fp'
    → fp.product_names ≡ fb.pq_names
    → Has g fp
    → Same g fb ⊎ Has g fp'
Added-Has_old fb g fp fp' a h (names, band, time) = elim (Bool-cases (g.pq_band == fb.pq_band)) [
  | inl same ↦ inl (sym ((string_eq.beq_iff g.pq_band fb.pq_band).0 same), sym h ∙ names)
  | inr other ↦ inr (
    a.names ∙ names,
    rw a.flags (ground (arith, other, band, lookup-insert g.pq_band fb.pq_band fb fp.flag_bands)),
    a.time ∙ time,
  )
]

module _ (layer_names : List String) where
  pub new_group-Has : (fb : FlagBand) → Has fb (new_group layer_names fb)
  unfolding new_group
  new_group-Has fb = (refl, ground (arith, string_eq.beq_iff fb.pq_band fb.pq_band), refl)

  place-Stands :
      (fb : FlagBand) (fps fps' : List FlagProductBands)
      → place layer_names fb fps ≡ ok fps'
      → Stands fb fps' × ((g : FlagBand) → Stands g fps → Same g fb ⊎ Stands g fps')
  unfolding place products_match
  place-Stands fb [] fps' h =
      let e : new_group layer_names fb ∷ [] ≡ fps' = cc h in
      (subst (Stands fb) e (inl (new_group-Has fb)), λ g never. absurd never)
  place-Stands fb (fp ∷ fps) fps' h = elim (Bool-cases (names_equal fb.pq_names fp.product_names)) [
    | inl here ↦
        let (fp', added, e) = >>=-eq-ok (add_flag_band fb fp) (λ x. ok (x ∷ fps)) (rw here at h) in
        let e' : fp' ∷ fps ≡ fps' = cc e in
        let a = add_flag_band-Added fb fp fp' added in
        let same = sym ((names_equal_iff fb.pq_names fp.product_names).0 here) in
        rw (sym e') (
          inl (Added-Has_new fb fp fp' a same),
          λ g. elim [
            | inl has ↦ elim (Added-Has_old fb g fp fp' a same has) [
              | inl over ↦ inl over
              | inr kept ↦ inr (inl kept)
            ]
            | inr later ↦ inr (inr later)
          ],
        )
    | inr other ↦
        let (rest, placed, e) =
          >>=-eq-ok (place layer_names fb fps) (λ r. ok (fp ∷ r)) (rw other at h) in
        let e' : fp ∷ rest ≡ fps' = cc e in
        let (stands, old) = place-Stands fb fps rest placed in
        rw (sym e') (
          inr stands,
          λ g. elim [
            | inl has ↦ inr (inl has)
            | inr later ↦ elim (old g later) [ inl over ↦ inl over | inr kept ↦ inr (inr kept) ]
          ],
        )
  ]

  place_all-Stands :
      (g : FlagBand) (fbs : List FlagBand) (fps fps' : List FlagProductBands)
      → place_all layer_names fbs fps ≡ ok fps'
      → Stands g fps
      → Replaced g fbs ⊎ Stands g fps'
  unfolding place_all
  place_all-Stands g [] fps fps' h stands =
      let e : fps ≡ fps' = cc h in inr (subst (Stands g) e stands)
  place_all-Stands g (fb ∷ fbs) fps fps' h stands =
      let (mid, placed, rest) = >>=-eq-ok (place layer_names fb fps) _ h in
      elim ((place-Stands fb fps mid placed).1 g stands) [
        | inl over ↦ inl (inl over)
        | inr kept ↦ elim (place_all-Stands g fbs mid fps' rest kept) [
          | inl over ↦ inl (inr over)
          | inr still ↦ inr still
        ]
      ]

  place_all-Kept :
      (fbs : List FlagBand) (fps fps' : List FlagProductBands)
      → place_all layer_names fbs fps ≡ ok fps'
      → Kept fbs fps'
  unfolding place_all
  place_all-Kept [] fps fps' h = tt
  place_all-Kept (fb ∷ fbs) fps fps' h =
      let (mid, placed, rest) = >>=-eq-ok (place layer_names fb fps) _ h in
      (
        place_all-Stands fb fbs mid fps' rest (place-Stands fb fps mid placed).0,
        place_all-Kept fbs mid fps' rest,
      )

  -- If grouping the flag bands of masks succeeds, each band has a group with its products and its
  -- handling of time, which has a band of its name; it is this very band that stands there unless a
  -- later one of the same name and the same products takes its place; and no two groups have the same
  -- products.
  pub build_list_from_masks_groups :
      (fbs : List FlagBand) (fps : List FlagProductBands)
      → build_list_from_masks layer_names fbs ≡ ok fps
      → All (λ fb. InGroup fb fps) fbs × Kept fbs fps × Distinct fps
  unfolding build_list_from_masks
  build_list_from_masks_groups fbs fps h =
      let (all, _, distinct) = place_all-groups layer_names fbs [] fps h tt in
      (all, place_all-Kept fbs [] fps h, distinct)
