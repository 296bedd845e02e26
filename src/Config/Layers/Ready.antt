-- ===== src/Config/Layers/Ready.antt =====
-- Which layers are shown once the tree is ready.
use mathlib.Core.List.{append-nil}
use datacube_ows.Base.{
  ◌≡◌, refl, ap, sym, ◌∙◌, subst, Bool, true, false, [], ◌∷◌, ◌++◌, String, Result, ok, err, ◌>>=◌,
  Dict, if◌then◌else◌, arith,
}
use datacube_ows.Config.Layers.{
  LayerError, config_exception, other_exception, RawLayers, Layer, named, folder, Layers, no_layers,
  and_layers, Index, join_layers, after_layer, Split, make_layer_ready, make_layers_ready,
  parse_layers,
}
use datacube_ows.Config.Layers.Indexed.{
  leaves, all_leaves, IsUnready, AreUnready, parse_layers-leaves,
}

-- The named layers that are reached by child layers alone.
abbrev mutual
  pub shown : {L : Type 0} → Layer L → Dict String L
  shown (named n l) = (n, l) ∷ []
  shown (folder lbl unready children) = all_shown children

  pub all_shown : {L : Type 0} → Layers L → Dict String L
  all_shown no_layers = []
  all_shown (and_layers l ls) = shown l ++ all_shown ls

abbrev pub is_ok : {A : Type 0} → Result LayerError A → Bool
is_ok (ok a) = true
is_ok (err e) = false

module _ {L : Type 0} (ready : String → L → Result LayerError (Unit {0})) where
  -- The layers that can be made ready.
  abbrev pub those_ready : Dict String L → Dict String L
  those_ready [] = []
  those_ready ((n, l) ∷ d) =
      let rest = those_ready d in if is_ok (ready n l) then (n, l) ∷ rest else rest

  those_ready-append : (d e : Dict String L) → those_ready (d ++ e) ≡ those_ready d ++ those_ready e
  those_ready-append [] e = refl
  those_ready-append ((n, l) ∷ d) e = ground (arith, those_ready-append d e)

  -- What a call on a layer shows: all that it can make ready, and nothing if it raises a ConfigException.
  abbrev Shows : Layer L → Result LayerError (Layer L) → Type 0
  Shows l (ok next) = shown next ≡ those_ready (leaves l)
  Shows l (err (config_exception t)) = those_ready (leaves l) ≡ []
  Shows l (err (other_exception t)) = Unit

  abbrev ShowsAll : Layers L → Result LayerError (Split L) → Type 0
  ShowsAll ls (ok split) = all_shown split.0 ≡ those_ready (all_leaves ls)
  ShowsAll ls (err (config_exception t)) = ⊥
  ShowsAll ls (err (other_exception t)) = Unit

  named-Shows :
      (n : String) (l : L) (r : Result LayerError (Unit {0}))
      → ready n l ≡ r
      → Shows (named n l) (r >>= λ _. ok (named n l))
  named-Shows n l (ok done) h = ground (arith, h)
  named-Shows n l (err (config_exception t)) h = ground (arith, h)
  named-Shows n l (err (other_exception t)) h = tt

  folder-Shows :
      (lbl : String) (unready children : Layers L) (r : Result LayerError (Split L))
      → children ≡ no_layers
      → ShowsAll unready r
      → Shows
          (folder lbl unready children)
          (r >>= λ split. ok (folder lbl split.1 (join_layers children split.0)))
  folder-Shows lbl unready no_layers (ok split) empty h =
      h ∙ ap those_ready (sym (append-nil (all_leaves unready)))
  folder-Shows lbl unready (and_layers l ls) (ok split) empty h = cc
  folder-Shows lbl unready children (err (config_exception t)) empty h = absurd h
  folder-Shows lbl unready children (err (other_exception t)) empty h = tt

  after_layer-ShowsAll :
      (l : Layer L) (ls : Layers L) (r : Result LayerError (Layer L))
      (s : Result LayerError (Split L))
      → Shows l r
      → ShowsAll ls s
      → ShowsAll (and_layers l ls) (after_layer l r s)
  after_layer-ShowsAll l ls (ok done) (ok split) h k =
      ap (λ d. d ++ all_shown split.0) h
      ∙ ap (λ d. those_ready (leaves l) ++ d) k
      ∙ sym (those_ready-append (leaves l) (all_leaves ls))
  after_layer-ShowsAll l ls (ok done) (err (config_exception t)) h k = k
  after_layer-ShowsAll l ls (ok done) (err (other_exception t)) h k = tt
  after_layer-ShowsAll l ls (err (config_exception u)) (ok split) h k =
      k
      ∙ ap (λ d. d ++ those_ready (all_leaves ls)) (sym h)
      ∙ sym (those_ready-append (leaves l) (all_leaves ls))
  after_layer-ShowsAll l ls (err (config_exception u)) (err (config_exception t)) h k = k
  after_layer-ShowsAll l ls (err (config_exception u)) (err (other_exception t)) h k = tt
  after_layer-ShowsAll l ls (err (other_exception u)) s h k = tt

  mutual
    unfolding make_layer_ready

    make_layer_ready-Shows : (l : Layer L) → IsUnready l → Shows l (make_layer_ready ready l)
    make_layer_ready-Shows (named n l) u = named-Shows n l (ready n l) refl
    make_layer_ready-Shows (folder lbl unready children) (empty, u) =
        folder-Shows lbl unready children (make_layers_ready ready unready) empty
          (make_layers_ready-ShowsAll unready u)

    make_layers_ready-ShowsAll :
        (ls : Layers L) → AreUnready ls → ShowsAll ls (make_layers_ready ready ls)
    make_layers_ready-ShowsAll no_layers u = refl
    make_layers_ready-ShowsAll (and_layers l ls) (p, u) =
        after_layer-ShowsAll l ls (make_layer_ready ready l) (make_layers_ready ready ls)
          (make_layer_ready-Shows l p) (make_layers_ready-ShowsAll ls u)

  -- Once the tree that the configuration gives is made ready, the layers that are reached from its root are
  -- those of the index that can be made ready, in the order of the index.
  pub make_layer_ready-shown :
      {R : Type 0} (build : Dict String L → String → R → Result LayerError L)
      (describe : String → R → Result LayerError (Unit {0})) (cfg : R) (raws : RawLayers R)
      (root next : Layer L) (index : Index L)
      → parse_layers build describe cfg raws ≡ ok (root, index)
      → make_layer_ready ready root ≡ ok next
      → shown next ≡ those_ready index.layers
  make_layer_ready-shown build describe cfg raws root next index parsed made =
      let law = parse_layers-leaves build describe cfg raws root index parsed in
      subst (Shows root) made (make_layer_ready-Shows root law.2) ∙ ap those_ready (sym law.0)
