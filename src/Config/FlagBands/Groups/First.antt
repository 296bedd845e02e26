-- ===== src/Config/FlagBands/Groups/First.antt =====
-- Grouping by products in the first group only.
use datacube_ows.Base.{
  subst, ◌≡◌, ◌≢◌, refl, sym, ◌∙◌, ◌⊎◌, inl, inr, List, [], ◌∷◌, String, ok, ◌>>=◌, >>=-eq-ok,
  Bool-cases, arith,
}
use datacube_ows.Config.FlagBands.{
  FlagBand, FlagProductBands, names_equal, new_group, products_match, add_flag_band, place_in_first,
  place_all_in_first, build_list_from_flagbands,
}
use datacube_ows.Config.FlagBands.Groups.{names_equal_iff, Added, add_flag_band-Added}
use datacube_ows.Config.FlagBands.Groups.Kept.{
  Has, Stands, Replaced, KeptOf, OnlyOf, insert-OnlyOf, Added-Has_new, Added-Has_old, new_group-Has,
}

-- What the loop makes of its group: the products and the merging stay, all its bands are of these
-- products, and those of the list that are of these products are in it unless replaced.
record Grouped (names : List String) (fbs : List FlagBand) (fp : FlagProductBands)
    (fps : List FlagProductBands) : Type 0 where
  last : FlagProductBands
  one : fps ≡ last ∷ []
  products : last.product_names ≡ names
  merge : last.manual_merge ≡ fp.manual_merge
  only : OnlyOf names last.flag_bands
  kept : KeptOf names fbs fps
  old : (g : FlagBand) → Has g fp → Replaced g fbs ⊎ Stands g fps

Grouped-joined :
    (names : List String) (fb : FlagBand) (fbs : List FlagBand) (fp fp' : FlagProductBands)
    (fps : List FlagProductBands)
    → Added fb fp fp'
    → fp.product_names ≡ fb.pq_names
    → Grouped names fbs fp' fps
    → Grouped names (fb ∷ fbs) fp fps
Grouped-joined names fb fbs fp fp' fps a same r = record {
  last = r.last;
  one = r.one;
  products = r.products;
  merge = r.merge ∙ a.merge;
  only = r.only;
  kept = (inr (r.old fb (Added-Has_new fb fp fp' a same)), r.kept);
  old = λ g has. elim (Added-Has_old fb g fp fp' a same has) [
    | inl over ↦ inl (inl over)
    | inr kept ↦ elim (r.old g kept) [ inl over ↦ inl (inr over) | inr still ↦ inr still ]
  ];
}

Grouped-skipped :
    (names : List String) (fb : FlagBand) (fbs : List FlagBand) (fp : FlagProductBands)
    (fps : List FlagProductBands)
    → fb.pq_names ≢ names
    → Grouped names fbs fp fps
    → Grouped names (fb ∷ fbs) fp fps
Grouped-skipped names fb fbs fp fps other r = record {
  last = r.last;
  one = r.one;
  products = r.products;
  merge = r.merge;
  only = r.only;
  kept = (inl other, r.kept);
  old = λ g has. elim (r.old g has) [ inl over ↦ inl (inr over) | inr still ↦ inr still ];
}

module _ (layer_names : List String) where
  place_all_in_first-Grouped :
      (names : List String) (fbs : List FlagBand) (fp : FlagProductBands)
      (fps : List FlagProductBands)
      → place_all_in_first layer_names fbs (fp ∷ []) ≡ ok fps
      → fp.product_names ≡ names
      → OnlyOf names fp.flag_bands
      → Grouped names fbs fp fps
  unfolding place_all_in_first place_in_first products_match
  place_all_in_first-Grouped names [] fp fps h own only =
      let e : fp ∷ [] ≡ fps = cc h in
      record {
        last = fp;
        one = sym e;
        products = own;
        merge = refl;
        only = only;
        kept = tt;
        old = λ g has. inr (subst (Stands g) e (inl has));
      }
  place_all_in_first-Grouped names (fb ∷ fbs) fp fps h own only =
      elim (Bool-cases (names_equal fb.pq_names fp.product_names)) [
        | inl here ↦
            let (mid, m, rest) =
              >>=-eq-ok (add_flag_band fb fp >>= λ x. ok (x ∷ [])) _ (rw here at h) in
            let (fp', added, e) = >>=-eq-ok (add_flag_band fb fp) (λ x. ok (x ∷ [])) m in
            let a = add_flag_band-Added fb fp fp' added in
            let e' : mid ≡ fp' ∷ [] = cc e in
            let same = sym ((names_equal_iff fb.pq_names fp.product_names).0 here) in
            Grouped-joined names fb fbs fp fp' fps a same (
              place_all_in_first-Grouped names fbs fp' fps (rw e' at rest) (a.names ∙ own) (
                rw a.flags (insert-OnlyOf names fb.pq_band fb fp.flag_bands (sym same ∙ own) only)))
        | inr other ↦
            let apart : fb.pq_names ≢ fp.product_names =
              ground (arith, other, names_equal_iff fb.pq_names fp.product_names) in
            Grouped-skipped names fb fbs fp fps (λ e. apart (e ∙ sym own))
              (place_all_in_first-Grouped names fbs fp fps (rw other at h) own only)
      ]

  -- If grouping the flag bands of a layer succeeds on a list with a first band, it gives exactly one
  -- group, that of the products of this band and with its manual merge. Every band under a name in this
  -- group is of these products, so the bands of the list with other products are lost; each of the
  -- bands with these products stands there, with its handling of time, unless a later one of the same
  -- name and these products takes its place.
  pub build_list_from_flagbands_one :
      (fb : FlagBand) (fbs : List FlagBand) (fps : List FlagProductBands)
      → build_list_from_flagbands layer_names (fb ∷ fbs) ≡ ok fps
      → (fp : FlagProductBands) × (fps ≡ fp ∷ [])
        × (fp.product_names ≡ fb.pq_names)
        × (fp.manual_merge ≡ fb.pq_manual_merge)
        × OnlyOf fb.pq_names fp.flag_bands
        × KeptOf fb.pq_names (fb ∷ fbs) fps
  unfolding build_list_from_flagbands
  build_list_from_flagbands_one fb fbs fps h =
      let r =
        place_all_in_first-Grouped fb.pq_names fbs (new_group layer_names fb) fps h refl
          (refl, tt) in
      (
        r.last,
        r.one,
        r.products,
        r.merge,
        r.only,
        (inr (r.old fb (new_group-Has layer_names fb)), r.kept),
      )
