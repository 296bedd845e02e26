-- ===== src/Config/Tests.antt =====
-- Runs of configuration objects, inheritance, band indexes and flag bands.
use text.Mathlib.TextEquality.{eq_iff}
use datacube_ows.Base.{
  ◌≡◌, refl, ◌≢◌, List, [], ◌∷◌, ◌++◌, none, String, arith, ℕ, true, false, ok, err, Dict, All,
}
use datacube_ows.Base.Int.{pos}
use datacube_ows.Config.Entry.{
  declare_unready, Entry, config_not_ready, new_entry, get_attribute, set_attribute, make_ready,
}
use datacube_ows.Config.Entry.Phases.{Call, declare, assign, finish, perform_all, ready_forever}
use datacube_ows.Config.Entry.Progress.{assign_all, ready_after_assigning}
use datacube_ows.Config.Inherit.{Value, Items, Fields, end, field}
use datacube_ows.Config.Bands.{add_aliases}
use datacube_ows.Config.Bands.Aliases.{Indexed, add_aliases-Indexed}
use datacube_ows.Config.FlagBands.{
  FlagBand, FlagProductBands, build_list_from_masks, build_list_from_flagbands,
}
use datacube_ows.Config.FlagBands.Groups.{InGroup, Distinct}
use datacube_ows.Config.FlagBands.Groups.Kept.{Kept, KeptOf, OnlyOf, build_list_from_masks_groups}
use datacube_ows.Config.FlagBands.Groups.First.{build_list_from_flagbands_one}

-- A layer whose products are read in the second phase.
abbrev pending : Entry ℕ
pending = record { unready_attributes = "products" ∷ []; attributes = []; ready = false }

products≢title : ◌≢◌ {A = String} "title" "products"
products≢title = ground (arith, eq_iff "title" "products")

ready_after_assigning_example :
    (perform_all (assign_all (("title", 1) ∷ ("products", 3) ∷ []) ++ finish ∷ []) pending).ready
    ≡ true
ready_after_assigning_example =
    ready_after_assigning (("title", 1) ∷ ("products", 3) ∷ []) pending
      (λ n unready. ground (arith, unready))

abbrev start_up : List (Call ℕ)
start_up = declare "products" ∷ finish ∷ assign "products" 3 ∷ finish ∷ []

started : (perform_all start_up new_entry).ready ≡ true
unfolding make_ready new_entry declare_unready set_attribute
started = refl

ready_forever_example :
    let self = perform_all (declare "more" ∷ []) (perform_all start_up new_entry) in
    (self.ready ≡ true) × (get_attribute "more" self ≢ err (config_not_ready ("more" ∷ [])))
ready_forever_example = ready_forever start_up (declare "more" ∷ []) "more" ("more" ∷ []) started

abbrev parent_cfg : Fields
parent_cfg = field "title" (Value.str "A") (
    field "bands" (Value.array (Items.cons (Value.str "red") Items.nil))
      (field "range" (Value.array (Items.cons (Value.int (pos 1)) Items.nil)) end))

abbrev child_cfg : Fields
child_cfg =
    field "bands" (Value.array (Items.cons (Value.str "nir") Items.nil))
      (field "range" (Value.array (Items.cons (Value.int (pos 2)) Items.nil)) end)

abbrev inherited : Fields
inherited = field "title" (Value.str "A") (
    field "bands"
      (Value.array (Items.cons (Value.str "red") (Items.cons (Value.str "nir") Items.nil)))
      (field "range" (Value.array (Items.cons (Value.int (pos 2)) Items.nil)) end))

abbrev band_cfg : Dict String (List String)
band_cfg = ("red", "r" ∷ "red" ∷ []) ∷ ("nir", "n" ∷ []) ∷ []

abbrev band_idx : Dict String String
band_idx = ("red", "red") ∷ ("r", "red") ∷ ("nir", "nir") ∷ ("n", "nir") ∷ []

add_aliases_run : add_aliases band_cfg [] ≡ ok band_idx
unfolding add_aliases
add_aliases_run = refl

add_aliases-Indexed_example : Indexed band_idx band_cfg
add_aliases-Indexed_example = add_aliases-Indexed band_cfg band_idx add_aliases_run

abbrev flag_band : String → List String → FlagBand
flag_band b names = record {
  pq_band = b;
  canonical_band_name = b;
  pq_names = names;
  pq_ignore_time = false;
  pq_manual_merge = false;
  pq_fuse_func = none;
}

abbrev wofs : FlagBand
wofs = flag_band "water" ("wofs" ∷ [])

abbrev fmask : FlagBand
fmask = flag_band "fmask" ("ls8" ∷ [])

abbrev flag_bands : List FlagBand
flag_bands = fmask ∷ wofs ∷ flag_band "nbart_contiguity" ("ls8" ∷ []) ∷ []

abbrev ls8 : FlagProductBands
ls8 = record {
  bands = "fmask" ∷ "nbart_contiguity" ∷ [];
  flag_bands =
      ("fmask", fmask) ∷ ("nbart_contiguity", flag_band "nbart_contiguity" ("ls8" ∷ [])) ∷ [];
  product_names = "ls8" ∷ [];
  ignore_time = false;
  manual_merge = false;
  fuse_func = none;
  main_product = true;
}

abbrev water : FlagProductBands
water = record {
  bands = "water" ∷ [];
  flag_bands = ("water", wofs) ∷ [];
  product_names = "wofs" ∷ [];
  ignore_time = false;
  manual_merge = false;
  fuse_func = none;
  main_product = false;
}

from_masks : build_list_from_masks ("ls8" ∷ []) flag_bands ≡ ok (ls8 ∷ water ∷ [])
unfolding build_list_from_masks
from_masks = refl

build_list_from_masks_groups_example :
    All (λ fb. InGroup fb (ls8 ∷ water ∷ [])) flag_bands
    × Kept flag_bands (ls8 ∷ water ∷ [])
    × Distinct (ls8 ∷ water ∷ [])
build_list_from_masks_groups_example =
    build_list_from_masks_groups ("ls8" ∷ []) flag_bands (ls8 ∷ water ∷ []) from_masks

-- The water band, of another product, is lost.
from_flagbands : build_list_from_flagbands ("ls8" ∷ []) flag_bands ≡ ok (ls8 ∷ [])
unfolding build_list_from_flagbands
from_flagbands = refl

build_list_from_flagbands_one_example :
    (fp : FlagProductBands) × (ls8 ∷ [] ≡ fp ∷ [])
    × (fp.product_names ≡ fmask.pq_names)
    × (fp.manual_merge ≡ fmask.pq_manual_merge)
    × OnlyOf fmask.pq_names fp.flag_bands
    × KeptOf fmask.pq_names flag_bands (ls8 ∷ [])
build_list_from_flagbands_one_example =
    build_list_from_flagbands_one ("ls8" ∷ []) fmask
      (wofs ∷ flag_band "nbart_contiguity" ("ls8" ∷ []) ∷ []) (ls8 ∷ []) from_flagbands
