-- ===== src/Config/Metadata/Steps.antt =====
-- `parse_metadata` of class OWSMetadataConfig (datacube_ows/config_utils.py), a step for each kind of
-- metadata. A call that raises ends the start-up, so that the registry it leaves is not modelled.
pub mod Slots
pub mod Kept
pub mod Chain
pub mod Texts
pub mod Keywords
use Prim.Native.String.{◌++◌ as ◌^^◌}
use datacube_ows.Base.{
  Bool, true, false, Option, none, some, List, [], ◌∷◌, String, Result, ok, err, ◌>>=◌, any,
  if◌then◌else◌,
}
use datacube_ows.Base.Text.{codes}
use datacube_ows.Config.Inherit.{Value, str, obj, Fields, end, field, get_field}
use datacube_ows.Config.Metadata.{union, Registry, Messages, register_metadata, read_metadata}
use datacube_ows.Config.Metadata.Parse.{
  MetadataError, no_title, no_abstract, Parent, MetadataConfig, Host, truthy, is_none, get_value,
  get_of, texts_of, join, first_name,
}

abbrev Step : Type 0
Step = Registry → Result MetadataError Registry

-- Run a step if the class has this kind of metadata.
abbrev pub step_if : Bool → Step → Step
step_if false step registry = ok registry
step_if true step registry = step registry

-- `v if v else "none"`
abbrev or_none : Value → Value
or_none v = if truthy v then v else str "none"

-- Register a value that is true.
abbrev register_if : Bool → String → String → Value → Bool → Registry → Registry
register_if false lbl fld val inherited registry = registry
register_if true lbl fld val inherited registry = register_metadata lbl fld val inherited registry

module _ (self : MetadataConfig) (cfg : Fields) where
  unfoldable pub parse_title : Step
  parse_title registry = elim self.default_title [
    | some default ↦ ok (
        register_metadata self.obj_label "title"
          (elim (get_field "title" cfg) [ none ↦ str default | some v ↦ v ]) false registry)
    | none ↦ elim (get_field "title" cfg) [
      | some v ↦ ok (register_metadata self.obj_label "title" v false registry)
      | none ↦ err (no_title self.obj_label)
    ]
  ]

  -- The abstract of an object that has none of its own.
  default_abstract_of : Messages → Step
  default_abstract_of env registry = elim self.inherit_from [
    | some parent ↦ ok (
        register_metadata self.obj_label "abstract"
          (read_metadata env parent.label "abstract" registry) true registry)
    | none ↦ elim self.default_abstract [
      | some default ↦ ok (register_metadata self.obj_label "abstract" (str default) false registry)
      | none ↦ err (no_abstract self.obj_label)
    ]
  ]

  unfoldable pub parse_abstract : Messages → Step
  unfolding default_abstract_of
  parse_abstract env registry =
      if is_none (get_value "abstract" cfg)
      then default_abstract_of env registry
      else ok
          (register_metadata self.obj_label "abstract" (get_value "abstract" cfg) false registry)

  -- `set(cfg.get("keywords", []))`
  unfoldable pub local_keyword_set : Result MetadataError (List String)
  local_keyword_set = elim (get_field "keywords" cfg) [
    | none ↦ ok []
    | some v ↦ texts_of v >>= λ ts. ok (union [] ts)
  ]

  unfoldable pub parse_keywords : Host → Step
  unfolding local_keyword_set
  parse_keywords host registry = do
    names ← local_keyword_set
    ok (
        register_metadata self.obj_label "local_keywords" (str (join (host.set_order names))) false
          registry)

  -- `keywords`, with those that are inherited
  unfoldable pub keyword_set : Result MetadataError (List String)
  unfolding local_keyword_set
  keyword_set = do
    names ← local_keyword_set
    ok (elim self.inherit_from [
      | none ↦ union [] names
      | some parent ↦ union parent.keywords names
    ])

  -- The title of the attribution, and whether it is inherited.
  attribution_title : Result MetadataError (Value × Bool)
  attribution_title =
      let attrib = get_value "attribution" cfg in
      let heir : Option Parent = if is_none attrib then self.inherit_from else none in
      elim heir [
        | some parent ↦ elim parent.attribution [
          | none ↦ ok (Value.null, true)
          | some title ↦ ok (title, true)
        ]
        | none ↦
            let own = get_of "title" attrib >>= λ title. ok (title, false) in
            if truthy attrib then own else ok (Value.null, false)
      ]

  unfoldable pub parse_attribution : Step
  unfolding attribution_title
  parse_attribution registry = do
    (title, inheriting) ← attribution_title
    ok (register_if (truthy title) self.obj_label "attribution_title" title inheriting registry)

  pub parse_fees : Step
  parse_fees registry =
      ok (register_metadata self.obj_label "fees" (or_none (get_value "fees" cfg)) false registry)

  -- The key is spelled as in the program.
  pub parse_access_constraints : Step
  parse_access_constraints registry = ok (
      register_metadata self.obj_label "access_constraints"
        (or_none (get_value "access_contraints" cfg)) false registry)

  pub parse_contact_info : Step
  parse_contact_info registry = do
    let info : Value = elim (get_field "contact_info" cfg) [ none ↦ obj end | some v ↦ v ]
    org ← get_of "organisation" info
    position ← get_of "position" info
    let with_org = register_if (truthy org) self.obj_label "contact_org" org false registry
    ok (register_if (truthy position) self.obj_label "contact_position" position false with_org)

  pub register_bands : Fields → Step
  register_bands end registry = ok registry
  register_bands (field k v bands) registry = do
    name ← first_name k v
    register_bands bands (register_metadata self.obj_label k name false registry)

  pub register_patches : List (String × String) → Registry → Registry
  register_patches [] registry = registry
  register_patches ((idx, label) ∷ patches) registry =
      register_patches patches
        (register_metadata self.obj_label ("rule_" ^^ idx) (str label) false registry)

  unfoldable pub parse_legend_units : Registry → Registry
  parse_legend_units registry =
      let units = get_value "units" cfg in
      if is_none units
      then registry
      else register_metadata self.obj_label "units" units false registry

  pub register_ticks : Host → List String → List String → Registry → Registry
  register_ticks host [] labels registry = registry
  register_ticks host (tick ∷ ticks) [] registry = registry
  register_ticks host (tick ∷ ticks) (lbl ∷ labels) registry = register_ticks host ticks labels (
      register_if (any host.isalpha (codes lbl)) self.obj_label ("lbl_" ^^ tick) (str lbl) false
        registry)

  unfoldable pub parse_metadata : Messages → Host → Step
  unfolding parse_title parse_abstract parse_keywords parse_attribution parse_fees
      parse_access_constraints parse_contact_info register_bands register_patches parse_legend_units
      register_ticks
  parse_metadata env host registry = do
    r1 ← step_if self.metadata_title parse_title registry
    r2 ← step_if self.metadata_abstract (parse_abstract env) r1
    r3 ← step_if self.metadata_keywords (parse_keywords host) r2
    r4 ← step_if self.metadata_attribution parse_attribution r3
    r5 ← step_if self.metadata_fees parse_fees r4
    r6 ← step_if self.metadata_access_constraints parse_access_constraints r5
    r7 ← step_if self.metadata_contact_info parse_contact_info r6
    r8 ← step_if self.metadata_default_bands (register_bands cfg) r7
    r9 ← step_if self.metadata_value_rules (λ r. ok (register_patches self.patches r)) r8
    r10 ← step_if self.metadata_legend_units (λ r. ok (parse_legend_units r)) r9
    r11 ←
        step_if self.metadata_tick_labels
          (λ r. ok (register_ticks host self.ticks self.tick_labels r)) r10
    ok r11
