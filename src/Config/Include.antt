-- ===== src/Config/Include.antt =====
-- `cfg_expand` of datacube_ows/config_utils.py: raw configuration that includes other files and Python
-- objects, on the values that JSON has. Files and modules are those of a record `Sources`.
pub mod Expanded
pub mod Depth
mod Tests
use Prim.Native.Char.{code}
use datacube_ows.Base.{
  ℕ, zero, suc, Bool, true, false, Option, none, some, List, [], ◌∷◌, ◌++◌, String, Result, ok, err,
  ◌>>=◌, ◌>>◌, raise_if, or_raise, contains, ◌==◌, string_eq, nat_eq, if◌then◌else◌,
}
use datacube_ows.Config.Inherit.{
  Value, null, array, obj, str, Items, nil, cons, Fields, end, field, get_field,
}

-- What the program finds outside: `none` stands for an exception of the call.
pub record Sources : Type 0 where
  pub getcwd : String
  -- `load_json_obj(path)`, by fsspec and json
  pub load_json_obj : String → Option Value
  -- `os.path.dirname(os.path.abspath(path))`
  pub dirname : String → String
  -- `os.path.join(cwd, path)`
  pub join : String → String → String
  -- `getattr(import_module(mod_name), obj_name)`
  pub get_object : String → String → Option Value

-- `no_fuel` is the model's own, the others are exceptions of the program.
pub data ExpandError : Type 0 where
  cyclic_inclusion : String → ExpandError
  file_not_found : String → ExpandError
  not_imported : String → ExpandError
  unsupported_type : Value → ExpandError
  value_error : ExpandError
  type_error : ExpandError
  attribute_error : ExpandError
  no_fuel : ExpandError

-- `path.rsplit('.', 1)`, where there is a dot
abbrev pub rsplit_dot : String → Option (String × String)
rsplit_dot String.[] = none
rsplit_dot (String.◌∷◌ c s) = elim (rsplit_dot s) [
  | some (before, after) ↦ some (String.◌∷◌ c before, after)
  | none ↦ if code c == b'.' then some ("", s) else none
]

-- An object that is loaded: a JSON `null` counts as no object.
abbrev pub found : Option Value → Option Value
found (some null) = none
found loaded = loaded

pub data Kind : Type 0 where
  json : Kind
  python : Kind
  unsupported : Value → Kind

abbrev kind_named : String → Kind
kind_named t = if t == "json" then json else if t == "python" then python else unsupported (str t)

-- `cfg_unexpanded["type"]`, which is "json" if it is missing
pub include_kind : Fields → Kind
include_kind fs = elim (get_field "type" fs) [
  | none ↦ json
  | some (str t) ↦ kind_named t
  | some other ↦ unsupported other
]

module _ (src : Sources) where
  unfoldable pub import_python_obj : String → Result ExpandError Value
  import_python_obj path = elim (rsplit_dot path) [
    | none ↦ err value_error
    | some (mod_name, obj_name) ↦ or_raise (src.get_object mod_name obj_name) (not_imported path)
  ]

  -- The directory that the content of a JSON file is expanded in.
  pub cwd_of : String → String → String
  cwd_of raw_path cwd = elim (src.load_json_obj raw_path) [
    | none ↦ cwd
    | some _ ↦ src.dirname raw_path
  ]

  -- The object of an included JSON file: from the working directory or from the inherited one.
  pub json_object : String → String → Option Value
  unfolding cwd_of
  json_object raw_path cwd = elim (found (src.load_json_obj raw_path)) [
    | some value ↦ some value
    | none ↦ found (src.load_json_obj (src.join (cwd_of raw_path cwd) raw_path))
  ]

  -- The object that an inclusion stands for, and the directory to expand it in.
  unfoldable pub included : Kind → String → String → Result ExpandError (Value × String)
  unfolding cwd_of json_object import_python_obj
  included json raw_path cwd = do
    value ← or_raise (json_object raw_path cwd) (file_not_found raw_path)
    ok (value, cwd_of raw_path cwd)
  included python raw_path cwd = do value ← import_python_obj raw_path; ok (value, cwd)
  included (unsupported t) raw_path cwd = err (unsupported_type t)

-- A path that is no text is neither joined nor split.
pub bad_path : Kind → ExpandError
bad_path json = type_error
bad_path python = attribute_error
bad_path (unsupported t) = unsupported_type t

-- The body of `cfg_expand`; `again` is its call for an included object.
module _ (src : Sources) (again : Value → String → List String → Result ExpandError Value)
    (cwd : String) (inclusions : List String) where
  unfoldable pub follow : Kind → Value → Result ExpandError Value
  unfolding included bad_path
  follow kind (str raw_path) = do
    raise_if (contains raw_path inclusions) (cyclic_inclusion raw_path)
    (value, inner_cwd) ← included src kind raw_path cwd
    again value inner_cwd (inclusions ++ raw_path ∷ [])
  follow kind other = err (bad_path kind)

  unfoldable mutual
    unfolding include_kind follow

    pub expand_value : Value → Result ExpandError Value
    expand_value (obj fs) = elim (get_field "include" fs) [
      | some path ↦ follow (include_kind fs) path
      | none ↦ expand_fields fs >>= λ gs. ok (obj gs)
    ]
    expand_value (array xs) = expand_items xs >>= λ ys. ok (array ys)
    expand_value other = ok other

    pub expand_fields : Fields → Result ExpandError Fields
    expand_fields end = ok end
    expand_fields (field k v fs) =
        expand_value v >>= λ w. (expand_fields fs >>= λ gs. ok (field k w gs))

    pub expand_items : Items → Result ExpandError Items
    expand_items nil = ok nil
    expand_items (cons x xs) = expand_value x >>= λ y. (expand_items xs >>= λ ys. ok (cons y ys))

module _ (src : Sources) where
  -- The fuel bounds how deep inclusions are nested.
  unfoldable pub expand_within : ℕ → Value → String → List String → Result ExpandError Value
  unfolding expand_value
  expand_within zero cfg cwd inclusions = err no_fuel
  expand_within (suc fuel) cfg cwd inclusions =
      expand_value src (expand_within fuel) cwd inclusions cfg

  unfoldable pub cfg_expand : ℕ → Value → Option String → List String → Result ExpandError Value
  unfolding expand_within
  cfg_expand fuel cfg none inclusions = expand_within fuel cfg src.getcwd inclusions
  cfg_expand fuel cfg (some cwd) inclusions = expand_within fuel cfg cwd inclusions
