-- ===== src/Config/Metadata/Steps/Chain.antt =====
-- The steps of `parse_metadata` as a list, and the fields that its later steps keep.
use datacube_ows.Base.{
  ◌≡◌, refl, ◌∙◌, false, List, [], ◌∷◌, String, ok, ◌>>=◌, >>=-eq-ok, ◌==◌, string_eq, arith, All,
}
use datacube_ows.Config.Inherit.{Fields}
use datacube_ows.Config.Metadata.{Registry, Messages}
use datacube_ows.Config.Metadata.Parse.{MetadataConfig, Host}
use datacube_ows.Config.Metadata.Steps.{
  Step, step_if, parse_title, parse_abstract, parse_keywords, parse_attribution, parse_fees,
  parse_access_constraints, parse_contact_info, register_bands, register_patches,
  parse_legend_units, register_ticks, parse_metadata,
}
use datacube_ows.Config.Metadata.Steps.Slots.{
  IsPlain, rule-beq, lbl-beq, Keeps, Keeps-step_if, Keeps-ok,
}
use datacube_ows.Config.Metadata.Steps.Kept.{
  keywords_kept, attribution_kept, fees_kept, access_constraints_kept, contact_info_kept,
  legend_units_kept, register_patches_kept, register_ticks_kept,
}

abbrev pub run_all : List Step → Step
run_all [] r = ok r
run_all (s ∷ steps) r = s r >>= run_all steps

pub run_all-Keeps :
    (lbl f : String) (steps : List Step) → All (Keeps lbl f) steps → Keeps lbl f (run_all steps)
run_all-Keeps lbl f [] h r next e = Keeps-ok lbl f r e refl
run_all-Keeps lbl f (s ∷ steps) (k, h) r next e =
    let (mid, first, rest) = >>=-eq-ok (s r) (run_all steps) e in
    run_all-Keeps lbl f steps h mid next rest ∙ k r mid first

pub title-IsPlain : IsPlain "title"
title-IsPlain = (
  λ idx. rule-beq "t" "itle" idx (λ e. ground (arith, e)),
  λ tick. lbl-beq "t" "itle" tick (λ e. ground (arith, e)),
)

abstract-IsPlain : IsPlain "abstract"
abstract-IsPlain = (
  λ idx. rule-beq "a" "bstract" idx (λ e. ground (arith, e)),
  λ tick. lbl-beq "a" "bstract" tick (λ e. ground (arith, e)),
)

pub access_constraints-IsPlain : IsPlain "access_constraints"
access_constraints-IsPlain = (
  λ idx. rule-beq "a" "ccess_constraints" idx (λ e. ground (arith, e)),
  λ tick. lbl-beq "a" "ccess_constraints" tick (λ e. ground (arith, e)),
)

module _ (self : MetadataConfig) (cfg : Fields) (env : Messages) (host : Host) where
  abbrev pub last_steps : List Step
  last_steps =
      step_if self.metadata_contact_info (parse_contact_info self cfg)
      ∷ step_if self.metadata_default_bands (register_bands self cfg cfg)
      ∷ step_if self.metadata_value_rules (λ r. ok (register_patches self cfg self.patches r))
      ∷ step_if self.metadata_legend_units (λ r. ok (parse_legend_units self cfg r))
      ∷ step_if self.metadata_tick_labels
          (λ r. ok (register_ticks self cfg host self.ticks self.tick_labels r))
      ∷ []

  abbrev pub middle_steps : List Step → List Step
  middle_steps rest =
      step_if self.metadata_keywords (parse_keywords self cfg host)
      ∷ step_if self.metadata_attribution (parse_attribution self cfg)
      ∷ step_if self.metadata_fees (parse_fees self cfg)
      ∷ rest

  abbrev pub constraints_step : Step
  constraints_step = step_if self.metadata_access_constraints (parse_access_constraints self cfg)

  abbrev pub all_steps : List Step
  all_steps =
      step_if self.metadata_title (parse_title self cfg)
      ∷ step_if self.metadata_abstract (parse_abstract self cfg env)
      ∷ middle_steps (constraints_step ∷ last_steps)

  pub parse_metadata-run_all :
      (r next : Registry)
      → parse_metadata self cfg env host r ≡ ok next
      → run_all all_steps r ≡ ok next
  unfolding parse_metadata
  parse_metadata-run_all r next e = e

  module _ (bands : self.metadata_default_bands ≡ false) where
    pub last_kept :
        (f : String)
        → IsPlain f
        → (f == "contact_org") ≡ false
        → (f == "contact_position") ≡ false
        → (f == "units") ≡ false
        → All (Keeps self.obj_label f) last_steps
    last_kept f plain org position units =
        let keeps = Keeps-step_if self.obj_label f in
        let contact =
          keeps self.metadata_contact_info (parse_contact_info self cfg)
            (contact_info_kept self cfg f org position) in
        let patched =
          keeps self.metadata_value_rules (λ r. ok (register_patches self cfg self.patches r))
            (λ r next e.
              Keeps-ok self.obj_label f r e
                (register_patches_kept self cfg f plain self.patches r)) in
        let legend =
          keeps self.metadata_legend_units (λ r. ok (parse_legend_units self cfg r))
            (legend_units_kept self cfg f units) in
        let ticked =
          keeps self.metadata_tick_labels
            (λ r. ok (register_ticks self cfg host self.ticks self.tick_labels r))
            (λ r next e.
              Keeps-ok self.obj_label f r e
                (register_ticks_kept self cfg f plain host self.ticks self.tick_labels r)) in
        (contact, (λ r next e. ground (arith, bands), (patched, (legend, (ticked, tt)))))

    pub middle_kept :
        (f : String) (rest : List Step)
        → (f == "local_keywords") ≡ false
        → (f == "attribution_title") ≡ false
        → (f == "fees") ≡ false
        → All (Keeps self.obj_label f) rest
        → All (Keeps self.obj_label f) (middle_steps rest)
    middle_kept f rest keywords attribution fees h =
        let keeps = Keeps-step_if self.obj_label f in
        (
          keeps self.metadata_keywords (parse_keywords self cfg host)
              (keywords_kept self cfg f host keywords),
          (
            keeps self.metadata_attribution (parse_attribution self cfg)
                (attribution_kept self cfg f attribution),
            (keeps self.metadata_fees (parse_fees self cfg) (fees_kept self cfg f fees), h),
          ),
        )

    pub title_kept_later :
        All (Keeps self.obj_label "title") (middle_steps (constraints_step ∷ last_steps))
    title_kept_later = middle_kept "title" (constraints_step ∷ last_steps) refl refl refl (
      Keeps-step_if self.obj_label "title" self.metadata_access_constraints
          (parse_access_constraints self cfg) (access_constraints_kept self cfg "title" refl),
      last_kept "title" title-IsPlain refl refl refl,
    )

    pub abstract_kept :
        All (Keeps self.obj_label "abstract") (middle_steps (constraints_step ∷ last_steps))
    abstract_kept = middle_kept "abstract" (constraints_step ∷ last_steps) refl refl refl (
      Keeps-step_if self.obj_label "abstract" self.metadata_access_constraints
          (parse_access_constraints self cfg) (access_constraints_kept self cfg "abstract" refl),
      last_kept "abstract" abstract-IsPlain refl refl refl,
    )
