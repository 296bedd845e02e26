-- ===== src/Config/Metadata.antt =====
-- `class OWSMetadataConfig` of datacube_ows/config_utils.py: the registry of the texts that a message
-- file or a translation may replace. The two class registries are one value that is passed on.
pub mod Store
pub mod Parse
pub mod Steps
mod Tests
use Prim.Native.String.{◌++◌ as ◌^^◌}
use datacube_ows.Base.{
  Bool, true, false, not, ◌&&◌, Option, none, some, List, [], ◌∷◌, ◌++◌, String, Result, ok, err,
  ◌>>=◌, Dict, lookup, insert, contains, ◌==◌, string_eq, if◌then◌else◌,
}
use datacube_ows.Base.Text.{split}
use datacube_ows.Config.Inherit.{Value, null, str}
use datacube_ows.Config.Entry.{Entry, EntryError, get_attribute}

-- `_metadata_registry` and `_inheritance_registry`
pub record Registry : Type 0 where
  pub metadata : Dict String Value
  pub inheritance : Dict String Bool

-- Where texts are looked up before the registry. `gettext` is `_`, and `message` gives the text of the
-- message that the catalog has for a key.
pub record Messages : Type 0 where
  pub internationalised : Bool
  pub gettext : String → String
  pub msg_src : Option (String → Option String)

-- `".".join([lbl, fld])`
abbrev pub metadata_key : String → String → String
metadata_key lbl fld = lbl ^^ ("." ^^ fld)

-- `d.get(k)`, whose None is the value `null`
abbrev pub or_null : Option Value → Value
or_null none = null
or_null (some v) = v

-- `register_metadata`
unfoldable pub register_metadata : String → String → Value → Bool → Registry → Registry
register_metadata lbl fld val inherited self = record {
  metadata = insert (metadata_key lbl fld) val self.metadata;
  inheritance = insert (metadata_key lbl fld) inherited self.inheritance;
}

pub registered : String → Registry → Value
registered key self = or_null (lookup key self.metadata)

pub from_catalog : Messages → String → Registry → Value
unfolding registered
from_catalog env key self = elim env.msg_src [
  | none ↦ registered key self
  | some catalog ↦ elim (catalog key) [ none ↦ registered key self | some text ↦ str text ]
]

-- `read_metadata`
unfoldable pub read_metadata : Messages → String → String → Registry → Value
unfolding from_catalog
read_metadata env lbl fld self =
    let key = metadata_key lbl fld in
    if env.internationalised && not (env.gettext key == key)
    then str (env.gettext key)
    else from_catalog env key self

-- `read_inheritance`
unfoldable pub read_inheritance : String → String → Registry → Bool
read_inheritance lbl fld self = elim (lookup (metadata_key lbl fld) self.inheritance) [
  | none ↦ false
  | some inherited ↦ inherited
]

-- Python's truth of a text, None being false.
pub truthy_text : Value → Option String
truthy_text (str t) = if t == "" then none else some t
truthy_text _ = none

-- The names whose attribute is read from the registry as it is.
abbrev text_fields : List String
text_fields =
    "title" ∷ "abstract" ∷ "fees" ∷ "access_constraints" ∷ "contact_position" ∷ "contact_org"
    ∷ "units" ∷ "attribution_title" ∷ []

pub data Attribute (V : Type 0) : Type 0 where
  text_attribute : Value → Attribute V
  set_attribute : List String → Attribute V
  plain_attribute : V → Attribute V

-- A set is a list without repetitions: `a.union(b)`, and `set(xs)` as the union of no elements with xs.
unfoldable pub union : List String → List String → List String
union names [] = names
union names (x ∷ xs) = union (if contains x names then names else names ++ x ∷ []) xs

-- `__getattribute__`, of an object with the label `lbl`
unfoldable pub get_metadata_attribute :
    {V : Type 0} → Messages → String → Registry → Entry V → String → Result EntryError (Attribute V)
unfolding truthy_text union
get_metadata_attribute env lbl registry self name =
    if contains name text_fields
    then ok (text_attribute (read_metadata env lbl name registry))
    else if name == "local_keywords"
    then elim (truthy_text (read_metadata env lbl name registry)) [
      | none ↦ ok (set_attribute [])
      | some kw ↦ ok (set_attribute (union [] (split b',' kw)))
    ]
    else (get_attribute name self >>= λ v. ok (plain_attribute v))
