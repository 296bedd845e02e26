-- ===== src/Config/Metadata/Parse.antt =====
-- What `parse_metadata` of class OWSMetadataConfig (datacube_ows/config_utils.py) reads: the object, its
-- class and its raw configuration.
use Prim.Native.String.{◌++◌ as ◌^^◌}
use datacube_ows.Base.{
  ℕ, Bool, true, false, not, Option, List, [], ◌∷◌, String, Result, ok, err, ◌>>=◌, contains, ◌==◌,
  string_eq, nat_eq,
}
use datacube_ows.Base.Int.{pos, int_eq}
use datacube_ows.Config.Inherit.{
  Value, null, bool, int, float, str, array, obj, Items, nil, cons, Fields, end, field, get_field,
}
use datacube_ows.Config.Metadata.{or_null}

pub data MetadataError : Type 0 where
  no_title no_abstract : String → MetadataError
  type_error attribute_error key_error : MetadataError

-- An object that metadata is inherited from: its label, its keywords, and the title of its attribution.
pub record Parent : Type 0 where
  pub label : String
  pub keywords : List String
  pub attribution : Option Value

-- What a class and an object of it bring along. A tick is given by the text that Python prints for it.
pub record MetadataConfig : Type 0 where
  pub metadata_title : Bool
  pub metadata_abstract : Bool
  pub metadata_keywords : Bool
  pub metadata_contact_info : Bool
  pub metadata_fees : Bool
  pub metadata_access_constraints : Bool
  pub metadata_attribution : Bool
  pub metadata_default_bands : Bool
  pub metadata_value_rules : Bool
  pub metadata_legend_units : Bool
  pub metadata_tick_labels : Bool
  pub obj_label : String
  pub inherit_from : Option Parent
  pub default_title : Option String
  pub default_abstract : Option String
  pub patches : List (String × String)
  pub ticks : List String
  pub tick_labels : List String

-- What Python's library decides: the order that a set is iterated in, and `str.isalpha`.
pub record Host : Type 0 where
  pub set_order : List String → List String
  pub isalpha : ℕ → Bool

-- Python's truth of a value.
unfoldable pub truthy : Value → Bool
truthy null = false
truthy (bool b) = b
truthy (int z) = not (z == pos 0)
truthy (float t) = not (contains t ("0.0" ∷ "-0.0" ∷ []))
truthy (str t) = not (t == "")
truthy (array nil) = false
truthy (array (cons _ _)) = true
truthy (obj end) = false
truthy (obj (field _ _ _)) = true

abbrev pub is_none : Value → Bool
is_none null = true
is_none _ = false

-- `cfg.get(k)`
abbrev pub get_value : String → Fields → Value
get_value k cfg = or_null (get_field k cfg)

-- `v.get(k)`, for a `v` that should be a dictionary
pub get_of : String → Value → Result MetadataError Value
get_of k (obj fs) = ok (get_value k fs)
get_of k other = err attribute_error

-- The elements of an iterable that should be texts.
pub item_texts : Items → Result MetadataError (List String)
item_texts nil = ok []
item_texts (cons (str t) xs) = item_texts xs >>= λ ts. ok (t ∷ ts)
item_texts (cons _ xs) = err type_error

pub characters : String → List String
characters String.[] = []
characters (String.◌∷◌ c s) = String.◌∷◌ c "" ∷ characters s

pub key_texts : Fields → List String
key_texts end = []
key_texts (field k v fs) = k ∷ key_texts fs

unfoldable pub texts_of : Value → Result MetadataError (List String)
unfolding item_texts characters key_texts
texts_of (array xs) = item_texts xs
texts_of (str t) = ok (characters t)
texts_of (obj fs) = ok (key_texts fs)
texts_of other = err type_error

-- `",".join(names)`
abbrev pub join : List String → String
join [] = ""
join (x ∷ []) = x
join (x ∷ y ∷ xs) = x ^^ ("," ^^ join (y ∷ xs))

-- `v[0] if len(v) else k`
pub first_name : String → Value → Result MetadataError Value
first_name k (array nil) = ok (str k)
first_name k (array (cons x _)) = ok x
first_name k (str String.[]) = ok (str k)
first_name k (str (String.◌∷◌ c _)) = ok (str (String.◌∷◌ c ""))
first_name k (obj end) = ok (str k)
first_name k (obj (field _ _ _)) = err key_error
first_name k other = err type_error
