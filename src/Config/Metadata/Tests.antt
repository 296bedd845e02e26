-- ===== src/Config/Metadata/Tests.antt =====
-- Runs of the registry of metadata.
use datacube_ows.Base.{◌≡◌, refl, some, none, List, [], ◌∷◌, ok, Bool, true, false, ℕ}
use datacube_ows.Config.Inherit.{str, array, nil, cons, Fields, end, field}
use datacube_ows.Config.Entry.{Entry}
use datacube_ows.Config.Metadata.{
  Registry, Messages, register_metadata, read_metadata, read_inheritance, get_metadata_attribute,
  union, set_attribute, registered,
}
use datacube_ows.Config.Metadata.Store.{Registration, register_all, read_metadata-register_all}
use datacube_ows.Config.Metadata.Parse.{MetadataConfig, Host, truthy, texts_of}
use datacube_ows.Config.Metadata.Steps.{
  parse_metadata, parse_title, parse_abstract, parse_keywords, parse_attribution, local_keyword_set,
}
use datacube_ows.Config.Metadata.Steps.Slots.{slot}
use datacube_ows.Config.Metadata.Steps.Texts.{abstract_value, parse_metadata-texts}
use datacube_ows.Config.Metadata.Steps.Keywords.{local_keywords-parse_keywords}

abbrev plain_texts : Messages
plain_texts = record { internationalised = false; gettext = λ key. key; msg_src = none }

abbrev empty_registry : Registry
empty_registry = record { metadata = []; inheritance = [] }

abbrev registrations : List Registration
registrations =
    record { label = "global"; fld = "title"; val = str "A"; inherited = false }
    ∷ record { label = "layer.a.b"; fld = "title"; val = str "B"; inherited = true }
    ∷ record { label = "global"; fld = "title"; val = str "C"; inherited = false }
    ∷ []

read_metadata-register_all_example :
    (read_metadata plain_texts "layer.a.b" "title" (register_all registrations empty_registry)
      ≡ str "B")
    × (read_inheritance "layer.a.b" "title" (register_all registrations empty_registry) ≡ true)
read_metadata-register_all_example =
    read_metadata-register_all plain_texts "layer.a.b" "title" registrations empty_registry refl
      (refl, (refl, (refl, tt)))

-- A layer below the global configuration, with a title and keywords of its own.
abbrev layer : MetadataConfig
layer = record {
  metadata_title = true;
  metadata_abstract = true;
  metadata_keywords = true;
  metadata_contact_info = false;
  metadata_fees = false;
  metadata_access_constraints = false;
  metadata_attribution = true;
  metadata_default_bands = false;
  metadata_value_rules = false;
  metadata_legend_units = false;
  metadata_tick_labels = false;
  obj_label = "layer.x";
  inherit_from = some (record { label = "global"; keywords = []; attribution = none });
  default_title = none;
  default_abstract = none;
  patches = [];
  ticks = [];
  tick_labels = [];
}

abbrev layer_cfg : Fields
layer_cfg =
    field "title" (str "X")
      (field "keywords" (array (cons (str "sea") (cons (str "land") (cons (str "sea") nil)))) end)

abbrev python : Host
python = record { set_order = λ names. names; isalpha = λ c. true }

abbrev global_registry : Registry
global_registry = record {
  metadata = ("global.abstract", str "All data") ∷ [];
  inheritance = ("global.abstract", false) ∷ [];
}

abbrev titled : Registry
titled = register_metadata "layer.x" "title" (str "X") false global_registry

abbrev described : Registry
described = register_metadata "layer.x" "abstract" (str "All data") true titled

abbrev parsed : Registry
parsed = register_metadata "layer.x" "local_keywords" (str "sea,land") false described

layer_keywords : local_keyword_set layer layer_cfg ≡ ok ("sea" ∷ "land" ∷ [])
unfolding local_keyword_set texts_of union
layer_keywords = refl

keywords_parsed : parse_keywords layer layer_cfg python described ≡ ok parsed
unfolding parse_keywords texts_of union
keywords_parsed = refl

layer-parsed : parse_metadata layer layer_cfg plain_texts python global_registry ≡ ok parsed
unfolding parse_metadata parse_title parse_abstract parse_keywords parse_attribution texts_of union
    truthy read_metadata registered register_metadata
layer-parsed = refl

parse_metadata-texts_example :
    (◌≡◌ {A = Bool} true true → slot "layer.x" "title" parsed ≡ (some (str "X"), some false))
    × (◌≡◌ {A = Bool} true true
        → slot "layer.x" "abstract" parsed
          ≡ abstract_value layer layer_cfg plain_texts global_registry)
parse_metadata-texts_example =
    parse_metadata-texts layer layer_cfg plain_texts python global_registry parsed refl layer-parsed

abbrev no_entry : Entry ℕ
no_entry = record { unready_attributes = []; attributes = []; ready = false }

local_keywords-parse_keywords_example :
    get_metadata_attribute plain_texts "layer.x" parsed no_entry "local_keywords"
    ≡ ok (set_attribute ("sea" ∷ "land" ∷ []))
local_keywords-parse_keywords_example =
    local_keywords-parse_keywords layer layer_cfg python plain_texts no_entry ("sea" ∷ "land" ∷ [])
      described parsed layer_keywords (refl, (refl, tt)) (refl, (refl, tt)) (λ e. cc) refl
      keywords_parsed
