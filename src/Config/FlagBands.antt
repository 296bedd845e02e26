-- ===== src/Config/FlagBands.antt =====
-- `class FlagProductBands`: the flag bands of a layer, grouped by the products that they come from.
-- A fuse function is known by its identity, a number. `set` and `tuple` are lists.
pub mod Groups
use datacube_ows.Base.{
  ℕ, Bool, true, false, ◌&&◌, ◌||◌, not, Option, none, some, List, [], ◌∷◌, ◌++◌, String, Eq, ◌==◌,
  string_eq, nat_eq, if◌then◌else◌, Result, ok, err, ◌>>=◌, ◌>>◌, raise_if, Dict, insert, contains,
}

pub record FlagBand : Type 0 where
  pub pq_band : String
  pub canonical_band_name : String
  pub pq_names : List String
  pub pq_ignore_time : Bool
  pub pq_manual_merge : Bool
  pub pq_fuse_func : Option ℕ

pub record FlagProductBands : Type 0 where
  pub bands : List String
  pub flag_bands : Dict String FlagBand
  pub product_names : List String
  pub ignore_time : Bool
  pub manual_merge : Bool
  pub fuse_func : Option ℕ
  pub main_product : Bool

pub data FlagError : Type 0 where
  fuse_functions_differ ignore_time_differs : FlagError

-- `==` on tuples of names
pub names_equal : List String → List String → Bool
names_equal [] [] = true
names_equal (x ∷ xs) (y ∷ ys) = x == y && names_equal xs ys
names_equal _ _ = false

-- `bands.add`
pub add_band : String → List String → List String
add_band b bs = if contains b bs then bs else bs ++ b ∷ []

-- `__init__`; `layer_names` are the products of the layer.
pub new_group : List String → FlagBand → FlagProductBands
unfolding names_equal
new_group layer_names fb = record {
  bands = fb.canonical_band_name ∷ [];
  flag_bands = (fb.pq_band, fb) ∷ [];
  product_names = fb.pq_names;
  ignore_time = fb.pq_ignore_time;
  manual_merge = fb.pq_manual_merge;
  fuse_func = fb.pq_fuse_func;
  main_product = names_equal layer_names fb.pq_names;
}

pub products_match : FlagProductBands → List String → Bool
unfolding names_equal
products_match fp names = names_equal names fp.product_names

pub is_some : Option ℕ → Bool
is_some none = false
is_some (some _) = true

-- Both functions are there, and they differ.
pub clash : Option ℕ → Option ℕ → Bool
clash (some f) (some g) = not (f == g)
clash _ _ = false

pub bool_equal : Bool → Bool → Bool
bool_equal true b = b
bool_equal false b = not b

-- `add_flag_band`. (Where the band asks for a manual merge, the code sets that field of the band
-- itself once more, which changes nothing; the group keeps its own.)
pub add_flag_band : FlagBand → FlagProductBands → Result FlagError FlagProductBands
unfolding add_band clash bool_equal is_some
add_flag_band fb self = do
  raise_if (clash fb.pq_fuse_func self.fuse_func) fuse_functions_differ
  raise_if (not (bool_equal fb.pq_ignore_time self.ignore_time)) ignore_time_differs
  ok (record self {
    bands = add_band fb.pq_band self.bands;
    flag_bands = insert fb.pq_band fb self.flag_bands;
    fuse_func = if is_some self.fuse_func then self.fuse_func else fb.pq_fuse_func;
  })

-- The body of the loop of `build_list_from_masks`: the band joins the first group of its products,
-- or begins a group.
pub place :
    List String → FlagBand → List FlagProductBands → Result FlagError (List FlagProductBands)
unfolding products_match
place layer_names fb [] = ok (new_group layer_names fb ∷ [])
place layer_names fb (fp ∷ fps) =
    let here = add_flag_band fb fp >>= λ fp'. ok (fp' ∷ fps) in
    let later = place layer_names fb fps >>= λ rest. ok (fp ∷ rest) in
    if products_match fp fb.pq_names then here else later

pub place_all :
    List String → List FlagBand → List FlagProductBands → Result FlagError (List FlagProductBands)
place_all layer_names [] fps = ok fps
place_all layer_names (fb ∷ fbs) fps =
    place layer_names fb fps >>= λ fps'. place_all layer_names fbs fps'

-- `build_list_from_masks`, on the flag bands of the masks.
unfoldable pub build_list_from_masks :
    List String → List FlagBand → Result FlagError (List FlagProductBands)
unfolding place_all place add_flag_band new_group
build_list_from_masks layer_names fbs = place_all layer_names fbs []

-- The body of the loop of `build_list_from_flagbands`. Here `handled = True` and `break` stand
-- outside the test: whatever the first group is, the band is taken as handled.
pub place_in_first :
    List String → FlagBand → List FlagProductBands → Result FlagError (List FlagProductBands)
unfolding products_match
place_in_first layer_names fb [] = ok (new_group layer_names fb ∷ [])
place_in_first layer_names fb (fp ∷ fps) =
    if products_match fp fb.pq_names
    then (add_flag_band fb fp >>= λ fp'. ok (fp' ∷ fps))
    else ok (fp ∷ fps)

pub place_all_in_first :
    List String → List FlagBand → List FlagProductBands → Result FlagError (List FlagProductBands)
place_all_in_first layer_names [] fps = ok fps
place_all_in_first layer_names (fb ∷ fbs) fps =
    place_in_first layer_names fb fps >>= λ fps'. place_all_in_first layer_names fbs fps'

-- `build_list_from_flagbands`
unfoldable pub build_list_from_flagbands :
    List String → List FlagBand → Result FlagError (List FlagProductBands)
unfolding place_all_in_first place_in_first add_flag_band new_group
build_list_from_flagbands layer_names fbs = place_all_in_first layer_names fbs []
