-- ===== src/Config/Metadata/Steps/Kept.antt =====
-- Which fields each step leaves as they are.
use Prim.Native.String.{◌++◌ as ◌^^◌}
use datacube_ows.Base.{
  ◌≡◌, refl, ◌∙◌, Bool, true, false, none, some, List, [], ◌∷◌, String, Result, ok, ◌>>=◌,
  >>=-eq-ok, ◌==◌, string_eq, arith, any, Option-cases, Bool-cases, inl, inr,
}
use datacube_ows.Base.Text.{codes}
use datacube_ows.Config.Inherit.{Value, str, obj, end, Fields, get_field}
use datacube_ows.Config.Metadata.{Registry, Messages, register_metadata, read_metadata}
use datacube_ows.Config.Metadata.Parse.{
  MetadataError, MetadataConfig, Host, is_none, get_value, get_of, truthy, join,
}
use datacube_ows.Config.Metadata.Steps.{
  register_if, or_none, parse_title, parse_abstract, parse_keywords, parse_attribution, parse_fees,
  parse_access_constraints, parse_contact_info, register_patches, parse_legend_units,
  register_ticks, default_abstract_of, attribution_title, local_keyword_set,
}
use datacube_ows.Config.Metadata.Steps.Slots.{
  IsPlain, slot, Keeps, Keeps-register, Keeps-register_if, Keeps-ok,
}

module _ (self : MetadataConfig) (cfg : Fields) (f : String) where
  pub title_kept : (f == "title") ≡ false → Keeps self.obj_label f (parse_title self cfg)
  unfolding parse_title
  title_kept h r next e = elim (Option-cases self.default_title) [
    | inr (default, given) ↦
        let v : Value = elim (get_field "title" cfg) [ none ↦ str default | some v ↦ v ] in
        Keeps-ok self.obj_label f r {mid = register_metadata self.obj_label "title" v false r}
          (ground arith) (Keeps-register self.obj_label f "title" v false r h)
    | inl missing ↦ elim (Option-cases (get_field "title" cfg)) [
      | inr (v, own) ↦
          Keeps-ok self.obj_label f r {mid = register_metadata self.obj_label "title" v false r}
            (ground arith) (Keeps-register self.obj_label f "title" v false r h)
      | inl absent ↦ absurd (ground arith)
    ]
  ]

  pub abstract_step_kept :
      (env : Messages)
      → (f == "abstract") ≡ false
      → Keeps self.obj_label f (parse_abstract self cfg env)
  unfolding parse_abstract default_abstract_of
  abstract_step_kept env h r next e =
      let lbl = self.obj_label in
      elim (Bool-cases (is_none (get_value "abstract" cfg))) [
        | inr own ↦
            let v = get_value "abstract" cfg in
            Keeps-ok lbl f r {mid = register_metadata lbl "abstract" v false r} (ground arith)
              (Keeps-register lbl f "abstract" v false r h)
        | inl absent ↦ elim (Option-cases self.inherit_from) [
          | inr (parent, inherits) ↦
              let v = read_metadata env parent.label "abstract" r in
              Keeps-ok lbl f r {mid = register_metadata lbl "abstract" v true r} (ground arith)
                (Keeps-register lbl f "abstract" v true r h)
          | inl orphan ↦ elim (Option-cases self.default_abstract) [
            | inr (default, given) ↦
                Keeps-ok lbl f r {mid = register_metadata lbl "abstract" (str default) false r}
                  (ground arith) (Keeps-register lbl f "abstract" (str default) false r h)
            | inl missing ↦ absurd (ground arith)
          ]
        ]
      ]

  pub keywords_kept :
      (host : Host)
      → (f == "local_keywords") ≡ false
      → Keeps self.obj_label f (parse_keywords self cfg host)
  unfolding parse_keywords
  keywords_kept host h r next e =
      let done : List String → Result MetadataError Registry = λ names. ok (
        register_metadata self.obj_label "local_keywords" (str (join (host.set_order names))) false
          r) in
      let (names, _, last) = >>=-eq-ok (local_keyword_set self cfg) done e in
      Keeps-ok self.obj_label f r last (
        Keeps-register self.obj_label f "local_keywords" (str (join (host.set_order names))) false r
          h)

  pub attribution_kept :
      (f == "attribution_title") ≡ false → Keeps self.obj_label f (parse_attribution self cfg)
  unfolding parse_attribution
  attribution_kept h r next e =
      let done : Value × Bool → Result MetadataError Registry =
        λ t. ok (register_if (truthy t.0) self.obj_label "attribution_title" t.0 t.1 r) in
      let (t, _, last) = >>=-eq-ok (attribution_title self cfg) done e in
      Keeps-ok self.obj_label f r last
        (Keeps-register_if self.obj_label f (truthy t.0) "attribution_title" t.0 t.1 r h)

  pub fees_kept : (f == "fees") ≡ false → Keeps self.obj_label f (parse_fees self cfg)
  unfolding parse_fees
  fees_kept h r next e =
      Keeps-ok self.obj_label f r e
        (Keeps-register self.obj_label f "fees" (or_none (get_value "fees" cfg)) false r h)

  pub access_constraints_kept :
      (f == "access_constraints") ≡ false
      → Keeps self.obj_label f (parse_access_constraints self cfg)
  unfolding parse_access_constraints
  access_constraints_kept h r next e = Keeps-ok self.obj_label f r e (
      Keeps-register self.obj_label f "access_constraints"
        (or_none (get_value "access_contraints" cfg)) false r h)

  pub contact_info_kept :
      (f == "contact_org") ≡ false
      → (f == "contact_position") ≡ false
      → Keeps self.obj_label f (parse_contact_info self cfg)
  unfolding parse_contact_info
  contact_info_kept h k r next e =
      let lbl = self.obj_label in
      let info : Value = elim (get_field "contact_info" cfg) [ none ↦ obj end | some v ↦ v ] in
      let with_org : Value → Registry =
        λ org. register_if (truthy org) lbl "contact_org" org false r in
      let done : Value → Value → Result MetadataError Registry = λ org position.
        ok (register_if (truthy position) lbl "contact_position" position false (with_org org)) in
      let (org, _, rest) =
        >>=-eq-ok (get_of "organisation" info)
          (λ org. get_of "position" info >>= λ position. done org position) e in
      let (position, _, last) = >>=-eq-ok (get_of "position" info) (λ p. done org p) rest in
      Keeps-ok lbl f r last (
        Keeps-register_if lbl f (truthy position) "contact_position" position false (with_org org) k
        ∙ Keeps-register_if lbl f (truthy org) "contact_org" org false r h)

  pub legend_units_kept :
      (f == "units") ≡ false → Keeps self.obj_label f (λ r. ok (parse_legend_units self cfg r))
  unfolding parse_legend_units
  legend_units_kept h r next e =
      ground (arith, Keeps-register self.obj_label f "units" (get_value "units" cfg) false r h)

module _ (self : MetadataConfig) (cfg : Fields) (f : String) (plain : IsPlain f) where
  pub register_patches_kept :
      (patches : List (String × String)) (r : Registry)
      → slot self.obj_label f (register_patches self cfg patches r) ≡ slot self.obj_label f r
  unfolding register_patches
  register_patches_kept [] r = refl
  register_patches_kept ((idx, label) ∷ patches) r =
      register_patches_kept patches
        (register_metadata self.obj_label ("rule_" ^^ idx) (str label) false r)
      ∙ Keeps-register self.obj_label f ("rule_" ^^ idx) (str label) false r (plain.0 idx)

  pub register_ticks_kept :
      (host : Host) (ticks labels : List String) (r : Registry)
      → slot self.obj_label f (register_ticks self cfg host ticks labels r)
        ≡ slot self.obj_label f r
  unfolding register_ticks
  register_ticks_kept host [] labels r = refl
  register_ticks_kept host (tick ∷ ticks) [] r = refl
  register_ticks_kept host (tick ∷ ticks) (lbl ∷ labels) r =
      let b = any host.isalpha (codes lbl) in
      register_ticks_kept host ticks labels
        (register_if b self.obj_label ("lbl_" ^^ tick) (str lbl) false r)
      ∙ Keeps-register_if self.obj_label f b ("lbl_" ^^ tick) (str lbl) false r (plain.1 tick)
