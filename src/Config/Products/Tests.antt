-- ===== src/Config/Products/Tests.antt =====
-- Runs of the products of a layer.
use datacube_ows.Base.{
  ℕ, ◌≡◌, refl, true, false, Option, none, some, [], ◌∷◌, String, ok, err, string_eq, ◌==◌,
  if◌then◌else◌,
}
use datacube_ows.Config.Products.{
  ProductNames, Products, not_allowed, index_error, lengths_differ, double_underscore, no_products,
  check_product_names, parse_product_name, parse_product_names, parse_pq_name, parse_pq_names,
  ready_products,
}
use datacube_ows.Config.Products.Found.{AllReady, ready_products-AllReady}

abbrev index : String → Option ℕ
index name =
    if name == "ls8"
    then some 8
    else if name == "ls7"
    then some 7
    else if name == "low"
    then some 0
    else none

abbrev names : ProductNames
names = record {
  product_name = "ls8";
  product_names = "ls8" ∷ "ls7" ∷ [];
  low_res_product_name = some "low";
  low_res_product_names = "low" ∷ "" ∷ [];
}

names-parsed :
    parse_product_names (record {
      product_name = none;
      product_names = some ("ls8" ∷ "ls7" ∷ []);
      low_res_product_name = none;
      low_res_product_names = some ("low" ∷ "" ∷ []);
    })
    ≡ ok names
unfolding parse_product_names
names-parsed = refl

abbrev products : Products index
products = record { product = 8; products = 8 ∷ 7 ∷ []; low_res_products = 0 ∷ [] }

products-ready : ready_products index names ≡ ok products
unfolding ready_products
products-ready = refl

ready_products-AllReady_example : AllReady index names products
ready_products-AllReady_example = ready_products-AllReady index names products products-ready

-- Fewer low resolution names than names, which the constructor of a layer refuses, would be an
-- IndexError here.
too_few :
    ready_products index (record names { low_res_product_names = "low" ∷ [] }) ≡ err index_error
unfolding ready_products
too_few = refl

checked :
    check_product_names parse_product_names (record {
      product_name = none;
      product_names = some ("ls8" ∷ "ls7" ∷ []);
      low_res_product_name = none;
      low_res_product_names = some ("low" ∷ []);
    })
    ≡ err lengths_differ
unfolding check_product_names parse_product_names
checked = refl

underscored :
    check_product_names parse_product_name (record {
      product_name = some "ls8__pan";
      product_names = none;
      low_res_product_name = none;
      low_res_product_names = none;
    })
    ≡ err double_underscore
unfolding check_product_names parse_product_name
underscored = refl

nothing_declared :
    check_product_names parse_product_names (record {
      product_name = none;
      product_names = some [];
      low_res_product_name = none;
      low_res_product_names = none;
    })
    ≡ err no_products
unfolding check_product_names parse_product_names
nothing_declared = refl

abbrev one : ProductNames
one = record {
  product_name = "ls8";
  product_names = "ls8" ∷ [];
  low_res_product_name = some "low";
  low_res_product_names = "low" ∷ [];
}

one-parsed :
    parse_product_name (record {
      product_name = some "ls8";
      product_names = none;
      low_res_product_name = some "low";
      low_res_product_names = none;
    })
    ≡ ok one
unfolding parse_product_name
one-parsed = refl

-- A flags section that names the product of the layer is not that of its main product, and has no low
-- resolution product; with several products it is.
flags_of_product :
    parse_pq_name one (record {
      dataset = false;
      datasets = false;
      product = some "ls8";
      products = none;
      low_res_product = none;
      low_res_products = none;
    })
    ≡ ok (record { pq_names = "ls8" ∷ []; pq_low_res_names = "ls8" ∷ []; main_products = false })
unfolding parse_pq_name
flags_of_product = refl

flags_of_products :
    parse_pq_names names (record {
      dataset = false;
      datasets = false;
      product = none;
      products = some ("ls8" ∷ "ls7" ∷ []);
      low_res_product = none;
      low_res_products = none;
    })
    ≡ ok (record {
      pq_names = "ls8" ∷ "ls7" ∷ [];
      pq_low_res_names = "low" ∷ "" ∷ [];
      main_products = true;
    })
unfolding parse_pq_names
flags_of_products = refl

both_names :
    parse_product_name (record {
      product_name = some "ls8";
      product_names = some [];
      low_res_product_name = none;
      low_res_product_names = none;
    })
    ≡ err (not_allowed "product_names")
unfolding parse_product_name
both_names = refl
