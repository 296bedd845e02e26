-- ===== src/Config/Layers.antt =====
-- The tree of layers (datacube_ows/ows_configuration.py): `parse_ows_layer`, the folders of class OWSFolder
-- and `parse_layers` of class OWSConfig, with the index of folders and that of layers. `R` is the type of the
-- raw configuration of a layer apart from its place in the tree, and `L` that of a named layer.
pub mod Indexed
pub mod Ready
mod Tests
use Prim.Native.String.{◌++◌ as ◌^^◌}
use datacube_ows.Base.{
  ℕ, zero, suc, ◌+◌, ◌/◌, ◌%◌, Bool, true, false, Option, none, some, List, [], ◌∷◌, ◌++◌, String,
  Result, ok, err, ◌>>=◌, ◌>>◌, raise_if, or_raise, Dict, lookup, insert, has_key, contains, ltb,
  ◌==◌, string_eq, if◌then◌else◌,
}

-- A ConfigException is caught where layers are parsed or made ready; any other exception is not.
pub data LayerError : Type 0 where
  config_exception : String → LayerError
  other_exception : String → LayerError

-- The character at a place of a text, as a text.
abbrev nth : ℕ → String → String
nth n String.[] = ""
nth zero (String.◌∷◌ c s) = String.◌∷◌ c ""
nth (suc n) (String.◌∷◌ c s) = nth n s

-- `str(n)`, on fuel for the number of digits
abbrev decimal : ℕ → ℕ → String
decimal zero n = ""
decimal (suc fuel) n =
    let high = decimal fuel (n / 10) in
    if ltb n 10 then nth n "0123456789" else high ^^ nth (n % 10) "0123456789"

mutual
  -- An entry of a list of layers: with a name, or else a folder with the label that it may have, with a
  -- list of layers or without, or no dictionary at all.
  pub data RawLayer (R : Type 0) : Type 0 where
    raw_named : String → R → RawLayer R
    raw_folder : Option String → R → RawLayers R → RawLayer R
    raw_empty : Option String → R → RawLayer R
    not_a_dictionary : RawLayer R

  pub data RawLayers (R : Type 0) : Type 0 where
    nil : RawLayers R
    cons : RawLayer R → RawLayers R → RawLayers R

mutual
  -- A named layer, or a folder with its label, its unready layers and its child layers.
  pub data Layer (L : Type 0) : Type 0 where
    named : String → L → Layer L
    folder : String → Layers L → Layers L → Layer L

  pub data Layers (L : Type 0) : Type 0 where
    no_layers : Layers L
    and_layers : Layer L → Layers L → Layers L

-- `folder_index`, by its keys, and `layer_index`
pub record Index (L : Type 0) : Type 0 where
  pub folders : List String
  pub layers : Dict String L

-- `unready_layers.append`, in front of the layers that follow
abbrev pub prepend : {L : Type 0} → Layer L → Layers L × Index L → Layers L × Index L
prepend layer (layers, index) = (and_layers layer layers, index)

abbrev pub is_dictionary : {R : Type 0} → RawLayer R → Bool
is_dictionary not_a_dictionary = false
is_dictionary _ = true

-- The label of a folder: its own, or else its parent's with its place, or else its place.
pub folder_label : Option String → Option String → ℕ → String
folder_label (some label) parent sibling = "folder." ^^ label
folder_label none (some parent) sibling = parent ^^ ("." ^^ decimal (suc sibling) sibling)
folder_label none none sibling = "folder." ^^ decimal (suc sibling) sibling

-- `build` is the constructor of a named layer up to the index, which may look up layers that are indexed
-- already; `describe` is the part of a folder's that reads its metadata.
module _ {R L : Type 0} (build : Dict String L → String → R → Result LayerError L)
    (describe : String → R → Result LayerError (Unit {0})) where
  -- `OWSNamedLayer.__init__`
  pub parse_named : String → R → Index L → Result LayerError (Layer L × Index L)
  parse_named name cfg index = do
    layer ← build index.layers name cfg
    raise_if (has_key name index.layers) (config_exception name)
    ok (named name layer, record index { layers = insert name layer index.layers })

  -- `folder_index[lbl] = self`
  abbrev pub add_folder : String → Index L → Index L
  add_folder lbl index = record index {
    folders = if contains lbl index.folders then index.folders else index.folders ++ lbl ∷ [];
  }

  -- What a folder checks before it reads its layers.
  pub check_folder : String → R → Index L → Result LayerError (Unit {0})
  check_folder lbl cfg index =
      raise_if (contains lbl index.folders) (config_exception lbl) >> describe lbl cfg

  unfoldable mutual
    unfolding parse_named folder_label check_folder

    -- `parse_ows_layer`. A ConfigException is raised before anything is indexed.
    pub parse_layer :
        RawLayer R → Option String → ℕ → Index L → Result LayerError (Layer L × Index L)
    parse_layer (raw_named name cfg) parent sibling index = parse_named name cfg index
    parse_layer (raw_folder label cfg raws) parent sibling index =
        let lbl = folder_label label parent sibling in
        check_folder lbl cfg index
        >> (parse_children raws lbl 0 index >>= λ found.
            ok (folder lbl found.0 no_layers, add_folder lbl found.1))
    parse_layer (raw_empty label cfg) parent sibling index =
        let lbl = folder_label label parent sibling in
        check_folder lbl cfg index >> err (config_exception lbl)
    parse_layer not_a_dictionary parent sibling index = err (other_exception "")

    pub parse_children : RawLayers R → String → ℕ → Index L → Result LayerError (Layers L × Index L)
    parse_children nil lbl child index = ok (no_layers, index)
    parse_children (cons raw raws) lbl child index =
        let skipped = parse_children raws lbl child index in
        if is_dictionary raw
        then (elim (parse_layer raw (some lbl) child index) [
          | ok (layer, next) ↦
              parse_children raws lbl (suc child) next >>= λ rest. ok (prepend layer rest)
          | err e ↦ elim e [
            | config_exception _ ↦ parse_children raws lbl (suc child) index
            | other_exception t ↦ err (other_exception t)
          ]
        ])
        else skipped

  -- `parse_layers`
  unfoldable pub parse_layers : R → RawLayers R → Result LayerError (Layer L × Index L)
  unfolding parse_layer
  parse_layers cfg raws =
      parse_layer (raw_folder (some "ows_root") cfg raws) none 0
        (record { folders = []; layers = [] })

-- `layer_count` and `unready_layer_count`; the second counts the child layers of an unready folder.
abbrev mutual
  pub layer_count : {L : Type 0} → Layer L → ℕ
  layer_count (named n l) = 1
  layer_count (folder lbl unready children) = sum_counts children

  pub sum_counts : {L : Type 0} → Layers L → ℕ
  sum_counts no_layers = 0
  sum_counts (and_layers l ls) = layer_count l + sum_counts ls

abbrev pub unready_layer_count : {L : Type 0} → Layer L → ℕ
unready_layer_count (named n l) = 0
unready_layer_count (folder lbl unready children) = sum_counts unready

abbrev pub join_layers : {L : Type 0} → Layers L → Layers L → Layers L
join_layers no_layers ms = ms
join_layers (and_layers l ls) ms = and_layers l (join_layers ls ms)

-- A list of layers: those made ready, and those still unready.
abbrev pub Split : Type 0 → Type 0
Split L = Layers L × Layers L

abbrev pub now_ready : {L : Type 0} → Layer L → Split L → Split L
now_ready l (done, still) = (and_layers l done, still)

abbrev pub still_unready : {L : Type 0} → Layer L → Split L → Split L
still_unready l (done, still) = (done, and_layers l still)

-- What the loop makes of a layer, by what its call gave, and of those that follow.
abbrev pub after_layer :
    {L : Type 0}
    → Layer L
    → Result LayerError (Layer L)
    → Result LayerError (Split L)
    → Result LayerError (Split L)
after_layer l (ok done) rest = rest >>= λ split. ok (now_ready done split)
after_layer l (err (config_exception _)) rest = rest >>= λ split. ok (still_unready l split)
after_layer l (err (other_exception t)) rest = err (other_exception t)

-- `ready` is what making a named layer ready gives.
module _ {L : Type 0} (ready : String → L → Result LayerError (Unit {0})) where
  unfoldable mutual
    -- `make_ready`
    pub make_layer_ready : Layer L → Result LayerError (Layer L)
    make_layer_ready (named n l) = ready n l >>= λ _. ok (named n l)
    make_layer_ready (folder lbl unready children) = make_layers_ready unready >>= λ split.
        ok (folder lbl split.1 (join_layers children split.0))

    -- The loop of a folder over its unready layers.
    pub make_layers_ready : Layers L → Result LayerError (Split L)
    make_layers_ready no_layers = ok (no_layers, no_layers)
    make_layers_ready (and_layers l ls) = after_layer l (make_layer_ready l) (make_layers_ready ls)

-- `layers`: a root folder with one child stands for that child.
abbrev pub top_layers : {L : Type 0} → Layer L → Layers L
top_layers (folder lbl unready (and_layers l no_layers)) = and_layers l no_layers
top_layers root = and_layers root no_layers
