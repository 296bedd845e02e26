-- ===== src/Config/Layers/Indexed.antt =====
-- The index of layers lists the layers of the tree.
use mathlib.Core.List.{append_assoc, append-nil}
use datacube_ows.Base.{
  ℕ, suc, ◌≡◌, refl, ap, sym, ◌∙◌, subst, false, Option, none, some, [], ◌∷◌, ◌++◌, String, Result,
  ok, ◌>>=◌, >>=-eq-ok, raise_if-ok, ok_injective, Dict, insert, has_key, ◌==◌, string_eq, arith,
  Bool-cases, Result-cases, inl, inr,
}
use datacube_ows.Config.Layers.{
  LayerError, config_exception, other_exception, RawLayer, raw_named, raw_folder, raw_empty,
  not_a_dictionary, RawLayers, nil, cons, Layer, named, folder, Layers, no_layers, and_layers,
  Index, prepend, is_dictionary, folder_label, parse_named, check_folder, parse_layer,
  parse_children, parse_layers,
}

-- The named layers of a tree, in the order that they stand in: those that are unready, then the others.
abbrev mutual
  pub leaves : {L : Type 0} → Layer L → Dict String L
  leaves (named n l) = (n, l) ∷ []
  leaves (folder lbl unready children) = all_leaves unready ++ all_leaves children

  pub all_leaves : {L : Type 0} → Layers L → Dict String L
  all_leaves no_layers = []
  all_leaves (and_layers l ls) = leaves l ++ all_leaves ls

-- No folder has child layers yet.
abbrev mutual
  pub IsUnready : {L : Type 0} → Layer L → Type 0
  IsUnready (named n l) = Unit
  IsUnready (folder lbl unready children) = (children ≡ no_layers) × AreUnready unready

  pub AreUnready : {L : Type 0} → Layers L → Type 0
  AreUnready no_layers = Unit
  AreUnready (and_layers l ls) = IsUnready l × AreUnready ls

-- No name stands twice.
abbrev pub Unique : {L : Type 0} → Dict String L → Type 0
Unique [] = Unit
Unique ((k, v) ∷ d) = (has_key k d ≡ false) × Unique d

module _ {L : Type 0} where
  insert_new :
      (k : String) (v : L) (d : Dict String L)
      → has_key k d ≡ false
      → insert k v d ≡ d ++ (k, v) ∷ []
  insert_new k v [] h = refl
  insert_new k v ((j, w) ∷ d) h = ground (arith, insert_new k v d)

  has_key-insert :
      (j k : String) (v : L) (d : Dict String L)
      → (j == k) ≡ false
      → has_key j (insert k v d) ≡ has_key j d
  has_key-insert j k v [] h = ground arith
  has_key-insert j k v ((i, w) ∷ d) h = ground (
    arith,
    has_key-insert j k v d h,
    string_eq.beq_iff k i,
    string_eq.beq_iff j i,
    string_eq.beq_iff j k,
  )

  Unique-insert :
      (k : String) (v : L) (d : Dict String L)
      → has_key k d ≡ false
      → Unique d
      → Unique (insert k v d)
  Unique-insert k v [] h u = (refl, tt)
  Unique-insert k v ((j, w) ∷ d) h (fresh, u) = elim (Bool-cases (k == j)) [
    | inl same ↦ absurd (ground arith)
    | inr other ↦
        subst Unique {x = (j, w) ∷ insert k v d} {y = insert k v ((j, w) ∷ d)} (ground arith) (
          has_key-insert j k v d (ground (arith, string_eq.beq_iff j k, string_eq.beq_iff k j))
              ∙ fresh,
          Unique-insert k v d (ground arith) u,
        )
  ]

  -- What parsing a part of the tree does to the index.
  abbrev Grows : Index L → Dict String L → Index L → Type 0
  Grows index found next =
      (next.layers ≡ index.layers ++ found) × (Unique index.layers → Unique next.layers)

-- A layer and those that follow it.
add-Grows :
    {L : Type 0} (layer : Layer L) (index mid next : Index L) (ts : Layers L)
    (others : Result LayerError (Layers L × Index L))
    → Grows index (leaves layer) mid × IsUnready layer
    → (others >>= λ rest. ok (prepend layer rest)) ≡ ok (ts, next)
    → ((found : Layers L × Index L)
        → others ≡ ok found
        → Grows mid (all_leaves found.0) found.1 × AreUnready found.0)
    → Grows index (all_leaves ts) next × AreUnready ts
add-Grows {L} layer index mid next ts others here e rest =
    let (found, read, last) = >>=-eq-ok others _ e in
    let ih = rest found read in
    let Good : Layers L × Index L → Type 0 =
      λ q. Grows index (all_leaves q.0) q.1 × AreUnready q.0 in
    subst Good (ok_injective last) (
      (
        ih.0.0
            ∙ ap (λ r. r ++ all_leaves found.0) here.0.0
            ∙ append_assoc index.layers (leaves layer) (all_leaves found.0),
        λ u. ih.0.1 (here.0.1 u),
      ),
      (here.1, ih.1),
    )

module _ {R L : Type 0} (build : Dict String L → String → R → Result LayerError L)
    (describe : String → R → Result LayerError (Unit {0})) where
  parse_named-Grows :
      (name : String) (cfg : R) (index next : Index L) (t : Layer L)
      → parse_named build describe name cfg index ≡ ok (t, next)
      → Grows index (leaves t) next × IsUnready t
  unfolding parse_named
  parse_named-Grows name cfg index next t e =
      let (layer, _, e1) = >>=-eq-ok (build index.layers name cfg) _ e in
      let (fresh, last) = raise_if-ok (has_key name index.layers) _ _ e1 in
      let Good : Layer L × Index L → Type 0 = λ q. Grows index (leaves q.0) q.1 × IsUnready q.0 in
      subst Good (ok_injective last) (
        (insert_new name layer index.layers fresh, Unique-insert name layer index.layers fresh),
        tt,
      )

  mutual
    unfolding parse_layer

    parse_layer-Grows :
        (raw : RawLayer R) (parent : Option String) (sibling : ℕ) (index next : Index L)
        (t : Layer L)
        → parse_layer build describe raw parent sibling index ≡ ok (t, next)
        → Grows index (leaves t) next × IsUnready t
    parse_layer-Grows (raw_named name cfg) parent sibling index next t e =
        parse_named-Grows name cfg index next t e
    parse_layer-Grows (raw_folder label cfg raws) parent sibling index next t e =
        let lbl = folder_label label parent sibling in
        let (_, _, e1) = >>=-eq-ok (check_folder build describe lbl cfg index) _ e in
        let (found, read, last) = >>=-eq-ok (parse_children build describe raws lbl 0 index) _ e1 in
        let ih = parse_children-Grows raws lbl 0 index found.1 found.0 read in
        let Good : Layer L × Index L → Type 0 = λ q. Grows index (leaves q.0) q.1 × IsUnready q.0 in
        subst Good (ok_injective last) (
          (ih.0.0 ∙ ap (λ r. index.layers ++ r) (sym (append-nil (all_leaves found.0))), ih.0.1),
          (refl, ih.1),
        )
    parse_layer-Grows (raw_empty label cfg) parent sibling index next t e =
        let lbl = folder_label label parent sibling in
        let (_, _, last) = >>=-eq-ok (check_folder build describe lbl cfg index) _ e in
        absurd (ground arith)
    parse_layer-Grows not_a_dictionary parent sibling index next t e = cc

    parse_children-Grows :
        (raws : RawLayers R) (lbl : String) (child : ℕ) (index next : Index L) (ts : Layers L)
        → parse_children build describe raws lbl child index ≡ ok (ts, next)
        → Grows index (all_leaves ts) next × AreUnready ts
    parse_children-Grows nil lbl child index next ts e =
        let Good : Layers L × Index L → Type 0 =
          λ q. Grows index (all_leaves q.0) q.1 × AreUnready q.0 in
        subst Good (ok_injective e) ((sym (append-nil index.layers), λ u. u), tt)
    parse_children-Grows (cons raw raws) lbl child index next ts e =
        elim (Bool-cases (is_dictionary raw)) [
          | inr other ↦ parse_children-Grows raws lbl child index next ts (ground arith)
          | inl dictionary ↦
              elim (Result-cases (parse_layer build describe raw (some lbl) child index)) [
                | inl ((layer, mid), parsed) ↦
                    let here = parse_layer-Grows raw (some lbl) child index mid layer parsed in
                    add-Grows layer index mid next ts
                      (parse_children build describe raws lbl (suc child) mid) here (ground arith)
                      (λ found read.
                        parse_children-Grows raws lbl (suc child) mid found.1 found.0 read)
                | inr (config_exception t, failed) ↦
                    parse_children-Grows raws lbl (suc child) index next ts (ground arith)
                | inr (other_exception t, failed) ↦ absurd (ground arith)
              ]
        ]

  -- The index lists the named layers of the tree, in the order that they stand in, under their names, and
  -- no name stands twice; no folder of the tree has a child layer yet.
  pub parse_layers-leaves :
      (cfg : R) (raws : RawLayers R) (t : Layer L) (index : Index L)
      → parse_layers build describe cfg raws ≡ ok (t, index)
      → (index.layers ≡ leaves t) × Unique index.layers × IsUnready t
  unfolding parse_layers
  parse_layers-leaves cfg raws t index e =
      let law =
        parse_layer-Grows (raw_folder (some "ows_root") cfg raws) none 0
          (record { folders = []; layers = [] }) index t e in
      (law.0.0, law.0.1 tt, law.1)
