-- ===== src/Config/Layers/Tests.antt =====
-- Runs of the tree of layers.
use datacube_ows.Base.{
  ℕ, ◌≡◌, refl, none, some, [], ◌∷◌, String, Result, ok, err, Dict, ◌==◌, string_eq, nat_eq,
  if◌then◌else◌,
}
use datacube_ows.Config.Layers.{
  LayerError, config_exception, raw_named, raw_folder, raw_empty, not_a_dictionary, RawLayers, nil,
  cons, Layer, named, folder, no_layers, and_layers, Index, parse_layer, parse_layers,
  make_layer_ready,
}
use datacube_ows.Config.Layers.Indexed.{Unique, IsUnready, leaves, parse_layers-leaves}
use datacube_ows.Config.Layers.Ready.{shown, make_layer_ready-shown}

-- A layer whose configuration is 0 cannot be built, and one whose is 9 cannot be made ready.
abbrev build : Dict String ℕ → String → ℕ → Result LayerError ℕ
build index name cfg = if cfg == 0 then err (config_exception name) else ok cfg

abbrev describe : String → ℕ → Result LayerError (Unit {0})
describe lbl cfg = ok tt

abbrev ready : String → ℕ → Result LayerError (Unit {0})
ready name cfg = if cfg == 9 then err (config_exception name) else ok tt

abbrev raws : RawLayers ℕ
raws = cons (raw_named "a" 1) (
    cons
      (raw_folder none 1
        (cons (raw_named "b" 9) (cons (raw_named "a" 3) (cons (raw_named "c" 4) nil))))
      (cons not_a_dictionary
        (cons (raw_named "d" 0) (cons (raw_empty (some "x") 1) (cons (raw_named "e" 5) nil)))))

abbrev root : Layer ℕ
root =
    folder "folder.ows_root"
      (and_layers (named "a" 1) (
        and_layers
          (folder "folder.ows_root.1"
            (and_layers (named "b" 9) (and_layers (named "c" 4) no_layers)) no_layers)
          (and_layers (named "e" 5) no_layers)))
      no_layers

abbrev index : Index ℕ
index = record {
  folders = "folder.ows_root.1" ∷ "folder.ows_root" ∷ [];
  layers = ("a", 1) ∷ ("b", 9) ∷ ("c", 4) ∷ ("e", 5) ∷ [];
}

raws-parsed : parse_layers build describe 1 raws ≡ ok (root, index)
unfolding parse_layers parse_layer
raws-parsed = refl

abbrev ready_root : Layer ℕ
ready_root = folder "folder.ows_root" no_layers (
    and_layers (named "a" 1) (
      and_layers
        (folder "folder.ows_root.1" (and_layers (named "b" 9) no_layers)
          (and_layers (named "c" 4) no_layers))
        (and_layers (named "e" 5) no_layers)))

root-ready : make_layer_ready ready root ≡ ok ready_root
unfolding make_layer_ready
root-ready = refl

parse_layers-leaves_example : (index.layers ≡ leaves root) × Unique index.layers × IsUnready root
parse_layers-leaves_example = parse_layers-leaves build describe 1 raws root index raws-parsed

make_layer_ready-shown_example : shown ready_root ≡ ("a", 1) ∷ ("c", 4) ∷ ("e", 5) ∷ []
make_layer_ready-shown_example =
    make_layer_ready-shown ready build describe 1 raws root ready_root index raws-parsed root-ready

-- A folder may have the label of a folder that it stands in.
nested_labels :
    parse_layers build describe 1 (cons (raw_folder (some "ows_root") 1 nil) nil)
    ≡ ok (
      folder "folder.ows_root"
          (and_layers (folder "folder.ows_root" no_layers no_layers) no_layers)
          no_layers,
      record { folders = "folder.ows_root" ∷ []; layers = [] },
    )
unfolding parse_layers parse_layer
nested_labels = refl
