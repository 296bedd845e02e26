-- ===== src/Config/Products.antt =====
-- The products of a layer: `parse_product_names` and `parse_pq_names` of the classes OWSProductLayer and
-- OWSMultiProductLayer, and the loop over products in `make_ready` of class OWSNamedLayer
-- (datacube_ows/ows_configuration.py). The datacube index is a parameter. A tuple is a list.
pub mod Found
mod Tests
use datacube_ows.Base.{
  Bool, true, false, not, ◌||◌, Option, none, some, List, [], ◌∷◌, ◌++◌, String, Result, ok, err,
  ◌>>=◌, ◌>>◌, raise_if, or_raise, drop, length, ◌==◌, nat_eq, string_eq, if◌then◌else◌,
}
use datacube_ows.Base.Text.{starts_with}

pub data ProductError : Type 0 where
  -- A ConfigException about an entry that has no place here, or about a product that is not found.
  not_allowed not_found : String → ProductError
  -- Other exceptions, which the constructor of a layer turns into a ConfigException.
  key_error : String → ProductError
  index_error : ProductError
  -- The ConfigExceptions of that constructor.
  lengths_differ double_underscore no_products : ProductError
  missing_entry : String → ProductError

pub record RawNames : Type 0 where
  pub product_name : Option String
  pub product_names : Option (List String)
  pub low_res_product_name : Option String
  pub low_res_product_names : Option (List String)

pub record ProductNames : Type 0 where
  pub product_name : String
  pub product_names : List String
  pub low_res_product_name : Option String
  pub low_res_product_names : List String

abbrev given : {A : Type 0} → Option A → Bool
given none = false
given (some a) = true

-- A name as a tuple, which is empty without a name.
pub as_names : Option String → List String
as_names none = []
as_names (some name) = if name == "" then [] else name ∷ []

-- `parse_product_names`, for one product
unfoldable pub parse_product_name : RawNames → Result ProductError ProductNames
unfolding as_names
parse_product_name cfg = do
  name ← or_raise cfg.product_name (key_error "product_name")
  raise_if (given cfg.product_names) (not_allowed "product_names")
  raise_if (given cfg.low_res_product_names) (not_allowed "low_res_product_names")
  ok (record {
    product_name = name;
    product_names = name ∷ [];
    low_res_product_name = cfg.low_res_product_name;
    low_res_product_names = as_names cfg.low_res_product_name;
  })

abbrev or_empty : Option (List String) → List String
or_empty none = []
or_empty (some names) = names

-- `names[0]`, and the first of names if there is one
pub first_of : List String → Result ProductError String
first_of [] = err index_error
first_of (n ∷ ns) = ok n

pub first? : List String → Option String
first? [] = none
first? (n ∷ ns) = some n

-- `parse_product_names`, for several products
unfoldable pub parse_product_names : RawNames → Result ProductError ProductNames
unfolding first_of first?
parse_product_names cfg = do
  names ← or_raise cfg.product_names (key_error "product_names")
  name ← first_of names
  let low_res = or_empty cfg.low_res_product_names
  raise_if (given cfg.product_name) (not_allowed "product_name")
  raise_if (given cfg.low_res_product_name) (not_allowed "low_res_product_name")
  ok (record {
    product_name = name;
    product_names = names;
    low_res_product_name = first? low_res;
    low_res_product_names = low_res;
  })

-- An IndexError or a KeyError is caught.
abbrev as_config_exception : {A : Type 0} → Result ProductError A → Result ProductError A
as_config_exception (ok names) = ok names
as_config_exception (err index_error) = err no_products
as_config_exception (err (key_error entry)) = err (missing_entry entry)
as_config_exception (err (not_allowed entry)) = err (not_allowed entry)
as_config_exception (err (not_found name)) = err (not_found name)
as_config_exception (err lengths_differ) = err lengths_differ
as_config_exception (err double_underscore) = err double_underscore
as_config_exception (err no_products) = err no_products
as_config_exception (err (missing_entry entry)) = err (missing_entry entry)

-- `"__" in prod_name`
abbrev has_double_underscore : String → Bool
has_double_underscore String.[] = false
has_double_underscore (String.◌∷◌ c s) =
    starts_with "__" (String.◌∷◌ c s) || has_double_underscore s

abbrev some_underscored : List String → Bool
some_underscored [] = false
some_underscored (n ∷ ns) = has_double_underscore n || some_underscored ns

-- What the constructor of a layer does with the products: `parse` is the `parse_product_names` of
-- its class.
unfoldable pub check_product_names :
    (RawNames → Result ProductError ProductNames) → RawNames → Result ProductError ProductNames
check_product_names parse cfg = as_config_exception (do
  names ← parse cfg
  let low_res = length names.low_res_product_names
  raise_if (not (low_res == 0 || low_res == length names.product_names)) lengths_differ
  raise_if (some_underscored names.product_names) double_underscore
  ok names)

-- What the flags section of a layer says.
pub record RawFlags : Type 0 where
  pub dataset : Bool
  pub datasets : Bool
  pub product : Option String
  pub products : Option (List String)
  pub low_res_product : Option String
  pub low_res_products : Option (List String)

pub record PqNames : Type 0 where
  pub pq_names : List String
  pub pq_low_res_names : List String
  pub main_products : Bool

-- The names without "low_res_product": the main product is only recognised where no product is named.
abbrev default_low_res : ProductNames → Option String → List String
default_low_res layer none = layer.low_res_product_names
default_low_res layer (some product) = product ∷ []

-- `parse_pq_names`, for one product
unfoldable pub parse_pq_name : ProductNames → RawFlags → Result ProductError PqNames
parse_pq_name layer cfg = do
  raise_if cfg.dataset (not_allowed "dataset")
  raise_if (given cfg.products) (not_allowed "products")
  raise_if (given cfg.low_res_products) (not_allowed "low_res_products")
  ok (record {
    pq_names = elim cfg.product [ none ↦ layer.product_name ∷ [] | some product ↦ product ∷ [] ];
    pq_low_res_names = elim cfg.low_res_product [
      | none ↦ default_low_res layer cfg.product
      | some low ↦ low ∷ []
    ];
    main_products = not (given cfg.product);
  })

abbrev same_names : List String → List String → Bool
same_names [] [] = true
same_names (x ∷ xs) (y ∷ ys) = let rest = same_names xs ys in if x == y then rest else false
same_names _ _ = false

-- `parse_pq_names`, for several products
unfoldable pub parse_pq_names : ProductNames → RawFlags → Result ProductError PqNames
parse_pq_names layer cfg = do
  raise_if cfg.datasets (not_allowed "datasets")
  raise_if (given cfg.product) (not_allowed "product")
  raise_if (given cfg.low_res_product) (not_allowed "low_res_product")
  ok (record {
    pq_names = elim cfg.products [ none ↦ layer.product_names | some names ↦ names ];
    pq_low_res_names = elim cfg.low_res_products [
      | none ↦ layer.low_res_product_names
      | some names ↦ names
    ];
    main_products = elim cfg.products [
      | none ↦ true
      | some names ↦ same_names names layer.product_names
    ];
  })

abbrev pub any : List String → Bool
any [] = false
any (n ∷ ns) = true

module _ {A : Type 0} (find : String → Option A) where
  -- `low_res_product_names[i]`, if there are any
  abbrev low_name : Bool → List String → Result ProductError (Option String)
  low_name false lows = ok none
  low_name true [] = err index_error
  low_name true (low ∷ lows) = ok (some low)

  abbrev low_product : Option String → Result ProductError (List A)
  low_product none = ok []
  low_product (some low) =
      let found = or_raise (find low) (not_found low) >>= λ product. ok (product ∷ []) in
      if low == "" then ok [] else found

  -- The loop over the products, with the low resolution names that are left.
  pub ready_loop : Bool → List String → List String → Result ProductError (List A × List A)
  ready_loop has_low [] lows = ok ([], [])
  ready_loop has_low (name ∷ names) lows = do
    low ← low_name has_low lows
    product ← or_raise (find name) (not_found name)
    low_res ← low_product low
    rest ← ready_loop has_low names (drop 1 lows)
    ok (product ∷ rest.0, low_res ++ rest.1)

  pub record Products : Type 0 where
    pub product : A
    pub products : List A
    pub low_res_products : List A

  pub with_first : List A → List A → Result ProductError Products
  with_first [] lows = err index_error
  with_first (p ∷ ps) lows = ok (record { product = p; products = p ∷ ps; low_res_products = lows })

  unfoldable pub ready_products : ProductNames → Result ProductError Products
  unfolding ready_loop with_first
  ready_products names =
      ready_loop (any names.low_res_product_names) names.product_names names.low_res_product_names
      >>= λ found. with_first found.0 found.1
