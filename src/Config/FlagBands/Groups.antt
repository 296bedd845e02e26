-- ===== src/Config/FlagBands/Groups.antt =====
-- Grouping by products: what adding a band to its group keeps.
pub mod Kept
pub mod First
use datacube_ows.Base.{
  subst, ◌≡◌, ◌≢◌, refl, sym, ◌∙◌, ◌⊎◌, inl, inr, ◌↔◌, Bool, true, List, [], ◌∷◌, String, string_eq,
  ok, ◌>>=◌, >>=-eq-ok, Bool-cases, All, insert, has_key, lookup-insert, length, arith,
}
use datacube_ows.Config.FlagBands.{
  FlagBand, FlagProductBands, names_equal, new_group, products_match, bool_equal, add_flag_band,
  place, place_all, build_list_from_masks, place_in_first, place_all_in_first,
  build_list_from_flagbands,
}

pub names_equal_iff : (xs ys : List String) → (names_equal xs ys ≡ true) ↔ (xs ≡ ys)
unfolding names_equal
names_equal_iff [] [] = ground arith
names_equal_iff [] (y ∷ ys) = ground arith
names_equal_iff (x ∷ xs) [] = ground arith
names_equal_iff (x ∷ xs) (y ∷ ys) = ground (arith, string_eq.beq_iff x y, names_equal_iff xs ys)

bool_equal_iff : (a b : Bool) → (bool_equal a b ≡ true) ↔ (a ≡ b)
unfolding bool_equal
bool_equal_iff a b = ground arith

-- A flag band stands in a group: that of its products, under its name, with its time handling.
pub record Holds (fb : FlagBand) (fp : FlagProductBands) : Type 0 where
  pub names : fp.product_names ≡ fb.pq_names
  pub band : has_key fb.pq_band fp.flag_bands ≡ true
  pub time : fp.ignore_time ≡ fb.pq_ignore_time

abbrev pub InGroup : FlagBand → List FlagProductBands → Type 0
InGroup fb [] = ⊥
InGroup fb (fp ∷ fps) = Holds fb fp ⊎ InGroup fb fps

-- No two groups have the same products.
abbrev pub Distinct : List FlagProductBands → Type 0
Distinct [] = Unit
Distinct (fp ∷ fps) = All (λ g. g.product_names ≢ fp.product_names) fps × Distinct fps

-- What adding a band to a group changes.
pub record Added (fb : FlagBand) (fp fp' : FlagProductBands) : Type 0 where
  pub names : fp'.product_names ≡ fp.product_names
  pub time : fp'.ignore_time ≡ fp.ignore_time
  pub same_time : fp.ignore_time ≡ fb.pq_ignore_time
  pub merge : fp'.manual_merge ≡ fp.manual_merge
  pub flags : fp'.flag_bands ≡ insert fb.pq_band fb fp.flag_bands

pub add_flag_band-Added :
    (fb : FlagBand) (fp fp' : FlagProductBands) → add_flag_band fb fp ≡ ok fp' → Added fb fp fp'
unfolding add_flag_band
add_flag_band-Added fb fp fp' h = ground (arith, bool_equal_iff fb.pq_ignore_time fp.ignore_time)

Added-Holds_new :
    (fb : FlagBand) (fp fp' : FlagProductBands)
    → Added fb fp fp'
    → fp.product_names ≡ fb.pq_names
    → Holds fb fp'
Added-Holds_new fb fp fp' a h = record {
  names = a.names ∙ h;
  band = rw a.flags (
      ground (
        arith,
        lookup-insert fb.pq_band fb.pq_band fb fp.flag_bands,
        string_eq.beq_iff fb.pq_band fb.pq_band,
      ));
  time = a.time ∙ a.same_time;
}

Added-Holds_old :
    (fb g : FlagBand) (fp fp' : FlagProductBands) → Added fb fp fp' → Holds g fp → Holds g fp'
Added-Holds_old fb g fp fp' a h = record {
  names = a.names ∙ h.names;
  band = rw a.flags (ground (arith, h.band, lookup-insert g.pq_band fb.pq_band fb fp.flag_bands));
  time = a.time ∙ h.time;
}

-- What placing a band changes in the list of groups.
record Placed (fb : FlagBand) (fps fps' : List FlagProductBands) : Type 0 where
  placed : InGroup fb fps'
  kept : (g : FlagBand) → InGroup g fps → InGroup g fps'
  apart :
      (n : List String)
      → fb.pq_names ≢ n
      → All (λ g. g.product_names ≢ n) fps
      → All (λ g. g.product_names ≢ n) fps'
  distinct : Distinct fps → Distinct fps'

module _ (layer_names : List String) where
  new_group-Holds : (fb : FlagBand) → Holds fb (new_group layer_names fb)
  unfolding new_group
  new_group-Holds fb = record {
    names = refl;
    band = ground (arith, string_eq.beq_iff fb.pq_band fb.pq_band);
    time = refl;
  }

  Placed-new : (fb : FlagBand) → Placed fb [] (new_group layer_names fb ∷ [])
  unfolding new_group
  Placed-new fb = record {
    placed = inl (new_group-Holds fb);
    kept = λ g never. absurd never;
    apart = λ n ne all. (ne, tt);
    distinct = λ d. (tt, tt);
  }

Placed-here :
    (fb : FlagBand) (fp fp' : FlagProductBands) (fps : List FlagProductBands)
    → Added fb fp fp'
    → fp.product_names ≡ fb.pq_names
    → Placed fb (fp ∷ fps) (fp' ∷ fps)
Placed-here fb fp fp' fps a same = record {
  placed = inl (Added-Holds_new fb fp fp' a same);
  kept = λ g. elim [ inl h ↦ inl (Added-Holds_old fb g fp fp' a h) | inr r ↦ inr r ];
  apart = λ n ne (p, all). (rw a.names p, all);
  distinct = λ (all, d). (rw a.names all, d);
}

Placed-later :
    (fb : FlagBand) (fp : FlagProductBands) (fps rest : List FlagProductBands)
    → fb.pq_names ≢ fp.product_names
    → Placed fb fps rest
    → Placed fb (fp ∷ fps) (fp ∷ rest)
Placed-later fb fp fps rest other later = record {
  placed = inr later.placed;
  kept = λ g. elim [ inl h ↦ inl h | inr r ↦ inr (later.kept g r) ];
  apart = λ n ne (p, all). (p, later.apart n ne all);
  distinct = λ (all, d). (later.apart fp.product_names other all, later.distinct d);
}

module _ (layer_names : List String) where
  place-Placed :
      (fb : FlagBand) (fps fps' : List FlagProductBands)
      → place layer_names fb fps ≡ ok fps'
      → Placed fb fps fps'
  unfolding place products_match
  place-Placed fb [] fps' h =
      let e : new_group layer_names fb ∷ [] ≡ fps' = cc h in
      subst (Placed fb []) e (Placed-new layer_names fb)
  place-Placed fb (fp ∷ fps) fps' h = elim (Bool-cases (names_equal fb.pq_names fp.product_names)) [
    | inl here ↦
        let (fp', added, e) = >>=-eq-ok (add_flag_band fb fp) (λ x. ok (x ∷ fps)) (rw here at h) in
        let e' : fp' ∷ fps ≡ fps' = cc e in
        subst (Placed fb (fp ∷ fps)) e' (
          Placed-here fb fp fp' fps (add_flag_band-Added fb fp fp' added)
            (sym ((names_equal_iff fb.pq_names fp.product_names).0 here)))
    | inr other ↦
        let (rest, placed, e) =
          >>=-eq-ok (place layer_names fb fps) (λ r. ok (fp ∷ r)) (rw other at h) in
        let e' : fp ∷ rest ≡ fps' = cc e in
        subst (Placed fb (fp ∷ fps)) e' (
          Placed-later fb fp fps rest (ground (arith, names_equal_iff fb.pq_names fp.product_names))
            (place-Placed fb fps rest placed))
  ]

  pub place_all-groups :
      (fbs : List FlagBand) (fps fps' : List FlagProductBands)
      → place_all layer_names fbs fps ≡ ok fps'
      → Distinct fps
      → All (λ fb. InGroup fb fps') fbs
        × ((g : FlagBand) → InGroup g fps → InGroup g fps')
        × Distinct fps'
  unfolding place_all
  place_all-groups [] fps fps' h d =
      let e : fps ≡ fps' = cc h in (tt, λ g. subst (InGroup g) e, subst Distinct e d)
  place_all-groups (fb ∷ fbs) fps fps' h d =
      let (mid, placed, rest) = >>=-eq-ok (place layer_names fb fps) _ h in
      let p = place-Placed fb fps mid placed in
      let (all, kept, distinct) = place_all-groups fbs mid fps' rest (p.distinct d) in
      ((kept fb p.placed, all), λ g i. kept g (p.kept g i), distinct)
