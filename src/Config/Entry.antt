-- ===== src/Config/Entry.antt =====
-- `class OWSConfigEntry`: two-phase initialisation. An object holds the names of the attributes that
-- were declared unready, its other attributes, and whether it is ready.
pub mod Phases
pub mod Progress
use datacube_ows.Base.{
  ℕ, Bool, true, false, ◌||◌, not, Option, none, some, List, [], ◌∷◌, ◌++◌, String, Result, ok, err,
  ◌>>=◌, ◌>>◌, raise_if, or_raise, Dict, lookup, insert, contains, ◌==◌, string_eq, if◌then◌else◌,
}

pub data EntryError : Type 0 where
  config_exception : EntryError
  config_not_ready : List String → EntryError
  attribute_error : String → EntryError

-- `V` stands for the values of the attributes.
pub record Entry (V : Type 0) : Type 0 where
  pub unready_attributes : List String
  pub attributes : Dict String V
  pub ready : Bool

-- `set.add` and `set.remove`
pub add_name : String → List String → List String
add_name name names = if contains name names then names else names ++ name ∷ []

pub remove_name : String → List String → List String
remove_name name [] = []
remove_name name (n ∷ ns) = let rest = remove_name name ns in if name == n then rest else n ∷ rest

abbrev pub is_empty : List String → Bool
is_empty [] = true
is_empty (_ ∷ _) = false

module _ {V : Type 0} where
  -- `__init__`
  unfoldable pub new_entry : Entry V
  new_entry = record { unready_attributes = []; attributes = []; ready = false }

  unfoldable pub declare_unready : String → Entry V → Result EntryError (Entry V)
  unfolding add_name
  declare_unready name self = do
    raise_if self.ready EntryError.config_exception
    ok (record self { unready_attributes = add_name name self.unready_attributes })

  -- `__getattribute__`
  pub get_attribute : String → Entry V → Result EntryError V
  get_attribute name self = do
    raise_if (contains name self.unready_attributes) (config_not_ready self.unready_attributes)
    or_raise (lookup name self.attributes) (attribute_error name)

  -- `get`: only an AttributeError gives the default.
  pub get : String → V → Entry V → Result EntryError V
  unfolding get_attribute
  get name default self = elim (get_attribute name self) [
    | ok v ↦ ok v
    | err e ↦ elim e [
      | attribute_error _ ↦ ok default
      | config_exception ↦ err EntryError.config_exception
      | config_not_ready names ↦ err (config_not_ready names)
    ]
  ]

  -- `__setattr__`
  unfoldable pub set_attribute : String → V → Entry V → Entry V
  unfolding remove_name
  set_attribute name v self = record self {
    unready_attributes = remove_name name self.unready_attributes;
    attributes = insert name v self.attributes;
  }

  -- `make_ready` of the base class
  unfoldable pub make_ready : Entry V → Result EntryError (Entry V)
  make_ready self = do
    raise_if (not (is_empty self.unready_attributes)) (config_not_ready self.unready_attributes)
    ok (record self { ready = true })
