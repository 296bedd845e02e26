-- ===== src/Config/Metadata/Steps/Texts.antt =====
-- What an object has registered once its metadata is parsed.
use datacube_ows.Base.{
  ◌≡◌, refl, ap, ◌∙◌, subst, Bool, true, false, Option, none, some, ◌∷◌, String, ok, >>=-eq-ok,
  ok_injective, string_eq, arith, lookup, lookup-insert, if◌then◌else◌, Option-cases, Bool-cases,
  inl, inr,
}
use datacube_ows.Config.Inherit.{Value, str, Fields, get_field}
use datacube_ows.Config.Metadata.{
  Registry, Messages, metadata_key, register_metadata, read_metadata, registered,
}
use datacube_ows.Config.Metadata.Store.{metadata_key_beq, read_metadata-replacement}
use datacube_ows.Config.Metadata.Parse.{MetadataError, MetadataConfig, Host, is_none, get_value}
use datacube_ows.Config.Metadata.Steps.{
  Step, step_if, parse_title, parse_abstract, parse_metadata, default_abstract_of,
}
use datacube_ows.Config.Metadata.Steps.Slots.{slot, registered_here, Keeps-step_if}
use datacube_ows.Config.Metadata.Steps.Kept.{abstract_step_kept}
use datacube_ows.Config.Metadata.Steps.Chain.{
  run_all, run_all-Keeps, last_steps, middle_steps, constraints_step, parse_metadata-run_all,
  title_kept_later, abstract_kept,
}

-- The title that a configuration gives, or else the default.
abbrev pub title_value : Option String → Option Value → Option Value
title_value default (some v) = some v
title_value none none = none
title_value (some default) none = some (str default)

-- The abstract of the object itself, or else that of its parent, or else the default.
abbrev pub abstract_value :
    MetadataConfig → Fields → Messages → Registry → Option Value × Option Bool
abstract_value self cfg env r =
    if is_none (get_value "abstract" cfg)
    then elim self.inherit_from [
      | some parent ↦ (some (read_metadata env parent.label "abstract" r), some true)
      | none ↦ elim self.default_abstract [
        | some default ↦ (some (str default), some false)
        | none ↦ (none, none)
      ]
    ]
    else (some (get_value "abstract" cfg), some false)

title_registered :
    (self : MetadataConfig) (cfg : Fields) (r next : Registry)
    → parse_title self cfg r ≡ ok next
    → slot self.obj_label "title" next
      ≡ (title_value self.default_title (get_field "title" cfg), some false)
unfolding parse_title
title_registered self cfg r next e =
    let holds : Option Value → Type 0 = λ t. slot self.obj_label "title" next ≡ (t, some false) in
    elim (Option-cases (get_field "title" cfg)) [
      | inr (v, own) ↦ elim (Option-cases self.default_title) [
        | inr (default, given) ↦
            subst holds {x = some v} (ground arith)
              (registered_here self.obj_label "title" v false r (ground arith))
        | inl missing ↦
            subst holds {x = some v} (ground arith)
              (registered_here self.obj_label "title" v false r (ground arith))
      ]
      | inl absent ↦ elim (Option-cases self.default_title) [
        | inr (default, given) ↦
            subst holds {x = some (str default)} (ground arith)
              (registered_here self.obj_label "title" (str default) false r (ground arith))
        | inl missing ↦ absurd (ground arith)
      ]
    ]

abstract_registered :
    (self : MetadataConfig) (cfg : Fields) (env : Messages) (r next : Registry)
    → parse_abstract self cfg env r ≡ ok next
    → slot self.obj_label "abstract" next ≡ abstract_value self cfg env r
unfolding parse_abstract default_abstract_of
abstract_registered self cfg env r next e =
    let lbl = self.obj_label in
    let holds : Option Value × Option Bool → Type 0 = λ t. slot lbl "abstract" next ≡ t in
    elim (Bool-cases (is_none (get_value "abstract" cfg))) [
      | inr own ↦
          let v = get_value "abstract" cfg in
          subst holds {x = (some v, some false)} (ground arith)
            (registered_here lbl "abstract" v false r (ground arith))
      | inl absent ↦ elim (Option-cases self.inherit_from) [
        | inr (parent, inherits) ↦
            let v = read_metadata env parent.label "abstract" r in
            subst holds {x = (some v, some true)} (ground arith)
              (registered_here lbl "abstract" v true r (ground arith))
        | inl orphan ↦ elim (Option-cases self.default_abstract) [
          | inr (default, given) ↦
              subst holds {x = (some (str default), some false)} (ground arith)
                (registered_here lbl "abstract" (str default) false r (ground arith))
          | inl missing ↦ absurd (ground arith)
        ]
      ]
    ]

step_on :
    (b : Bool) (step : Step) (r : Registry) {next : Registry}
    → b ≡ true
    → step_if b step r ≡ ok next
    → step r ≡ ok next
step_on true step r on e = e
step_on false step r on e = absurd (ground arith)

-- The registration of a title, of whatever object, leaves every abstract.
lookup_abstract-title :
    (lbl l : String) (v : Value) (r : Registry)
    → lookup (metadata_key l "abstract") (register_metadata lbl "title" v false r).metadata
      ≡ lookup (metadata_key l "abstract") r.metadata
unfolding register_metadata
lookup_abstract-title lbl l v r =
    let apart = metadata_key_beq l lbl "abstract" "title" refl refl in
    ground (
      arith,
      apart,
      lookup-insert (metadata_key l "abstract") (metadata_key lbl "title") v r.metadata,
    )

parse_title-registers :
    (self : MetadataConfig) (cfg : Fields) (r next : Registry)
    → parse_title self cfg r ≡ ok next
    → (v : Value) × (register_metadata self.obj_label "title" v false r ≡ next)
unfolding parse_title
parse_title-registers self cfg r next e = elim (Option-cases (get_field "title" cfg)) [
  | inr (v, own) ↦ (
    v,
    elim (Option-cases self.default_title) [
      | inr (default, given) ↦ ok_injective {E = MetadataError} (ground arith)
      | inl missing ↦ ok_injective {E = MetadataError} (ground arith)
    ],
  )
  | inl absent ↦ elim (Option-cases self.default_title) [
    | inr (default, given) ↦ (str default, ok_injective {E = MetadataError} (ground arith))
    | inl missing ↦ absurd (ground arith)
  ]
]

same_lookup :
    (env : Messages) (l f : String) (q r : Registry)
    → lookup (metadata_key l f) q.metadata ≡ lookup (metadata_key l f) r.metadata
    → read_metadata env l f q ≡ read_metadata env l f r
unfolding registered
same_lookup env l f q r same =
    ground (arith, read_metadata-replacement env l f q, read_metadata-replacement env l f r)

-- The text of a parent is not touched by the registration of a title.
read_abstract-title :
    (self : MetadataConfig) (cfg : Fields) (env : Messages) (l : String) (r next : Registry)
    → step_if self.metadata_title (parse_title self cfg) r ≡ ok next
    → read_metadata env l "abstract" next ≡ read_metadata env l "abstract" r
read_abstract-title self cfg env l r next e = elim (Bool-cases self.metadata_title) [
  | inr off ↦ ap (read_metadata env l "abstract") (ok_injective {E = MetadataError} (ground arith))
  | inl on ↦
      let (v, made) =
        parse_title-registers self cfg r next
          (step_on self.metadata_title (parse_title self cfg) r on e) in
      subst (λ q. read_metadata env l "abstract" q ≡ read_metadata env l "abstract" r) made
        (same_lookup env l "abstract" (register_metadata self.obj_label "title" v false r) r
          (lookup_abstract-title self.obj_label l v r))
]

abstract_value-title :
    (self : MetadataConfig) (cfg : Fields) (env : Messages) (r next : Registry)
    → step_if self.metadata_title (parse_title self cfg) r ≡ ok next
    → abstract_value self cfg env next ≡ abstract_value self cfg env r
abstract_value-title self cfg env r next e = elim (Option-cases self.inherit_from) [
  | inl orphan ↦ ground arith
  | inr (parent, inherits) ↦ ground (arith, read_abstract-title self cfg env parent.label r next e)
]

-- An object without default bands whose metadata is parsed has registered under its own label, whatever
-- else it registers: the title that its configuration gives, or else its default, never as inherited; and
-- the abstract that its configuration gives, or else, as inherited, the abstract that its parent reads as
-- before the call, or else its default.
pub parse_metadata-texts :
    (self : MetadataConfig) (cfg : Fields) (env : Messages) (host : Host) (r next : Registry)
    → self.metadata_default_bands ≡ false
    → parse_metadata self cfg env host r ≡ ok next
    → (self.metadata_title ≡ true
        → slot self.obj_label "title" next
          ≡ (title_value self.default_title (get_field "title" cfg), some false))
      × (self.metadata_abstract ≡ true
          → slot self.obj_label "abstract" next ≡ abstract_value self cfg env r)
parse_metadata-texts self cfg env host r next bands e =
    let later =
      middle_steps self cfg env host
        (constraints_step self cfg env host ∷ last_steps self cfg env host) in
    let (r1, first, rest) =
      >>=-eq-ok (step_if self.metadata_title (parse_title self cfg) r)
        (run_all (step_if self.metadata_abstract (parse_abstract self cfg env) ∷ later))
        (parse_metadata-run_all self cfg env host r next e) in
    let (r2, second, last) =
      >>=-eq-ok (step_if self.metadata_abstract (parse_abstract self cfg env) r1) (run_all later)
        rest in
    (
      λ titled.
          run_all-Keeps self.obj_label "title" later (title_kept_later self cfg env host bands) r2
            next last
          ∙ Keeps-step_if self.obj_label "title" self.metadata_abstract
              (parse_abstract self cfg env) (abstract_step_kept self cfg "title" env refl) r1 r2
              second
          ∙ title_registered self cfg r r1
              (step_on self.metadata_title (parse_title self cfg) r titled first),
      λ abstracted.
          run_all-Keeps self.obj_label "abstract" later (abstract_kept self cfg env host bands) r2
            next last
          ∙ abstract_registered self cfg env r1 r2
              (step_on self.metadata_abstract (parse_abstract self cfg env) r1 abstracted second)
          ∙ abstract_value-title self cfg env r r1 first,
    )
