-- ===== src/Config/Metadata/Steps/Slots.antt =====
-- What the registry holds for a field of an object, and the steps that leave it so.
use Prim.Native.Char.{Char, code}
use Prim.Native.String.{◌++◌ as ◌^^◌}
use text.Mathlib.TextLemmas.{append_cancel_left, cons-append, head-eq_of_cons-eq}
use datacube_ows.Base.{
  ◌≡◌, ◌≢◌, refl, ap, subst, Bool, true, false, Option, some, String, Result, ok, ok_injective,
  lookup, lookup-insert, ◌==◌, string_eq, arith, if◌then◌else◌, Bool-cases, inl, inr, ne→beq,
}
use datacube_ows.Config.Inherit.{Value}
use datacube_ows.Config.Metadata.{Registry, metadata_key, register_metadata}
use datacube_ows.Config.Metadata.Parse.{MetadataError}
use datacube_ows.Config.Metadata.Steps.{Step, step_if, register_if}

field_beq : (l f g : String) → (metadata_key l f == metadata_key l g) ≡ (f == g)
field_beq l f g = elim (Bool-cases (metadata_key l f == metadata_key l g)) [
  | inl same ↦
      let equal = (string_eq.beq_iff (metadata_key l f) (metadata_key l g)).0 same in
      let fields = append_cancel_left "." f g (append_cancel_left l ("." ^^ f) ("." ^^ g) equal) in
      ground (arith, string_eq.beq_iff f g)
  | inr other ↦ elim (Bool-cases (f == g)) [
    | inl same ↦ absurd (
        ground (
          arith,
          ap (metadata_key l) ((string_eq.beq_iff f g).0 same),
          string_eq.beq_iff (metadata_key l f) (metadata_key l g),
        ))
    | inr apart ↦ ground arith
  ]
]

-- A field whose name does not begin as an indexed one does.
abbrev pub IsPlain : String → Type 0
IsPlain f =
    ((idx : String) → (f == ("rule_" ^^ idx)) ≡ false)
    × ((tick : String) → (f == ("lbl_" ^^ tick)) ≡ false)

head-beq :
    (c d : Char) (s t : String) → code c ≢ code d → (String.◌∷◌ c s == String.◌∷◌ d t) ≡ false
head-beq c d s t h =
    ne→beq (String.◌∷◌ c s) (String.◌∷◌ d t) (λ e. h (ap code (head-eq_of_cons-eq e)))

pub rule-beq :
    (c : Char) (s idx : String) → code c ≢ b'r' → (String.◌∷◌ c s == ("rule_" ^^ idx)) ≡ false
rule-beq c s idx h = rw (cons-append "r" "ule_" idx) (head-beq c "r" s ("ule_" ^^ idx) h)

pub lbl-beq :
    (c : Char) (s tick : String) → code c ≢ b'l' → (String.◌∷◌ c s == ("lbl_" ^^ tick)) ≡ false
lbl-beq c s tick h = rw (cons-append "l" "bl_" tick) (head-beq c "l" s ("bl_" ^^ tick) h)

abbrev pub Slot : Type 0
Slot = Option Value × Option Bool

-- What the registry holds for a field of an object.
abbrev pub slot : String → String → Registry → Slot
slot lbl f r = (lookup (metadata_key lbl f) r.metadata, lookup (metadata_key lbl f) r.inheritance)

pub slot-register_metadata :
    (lbl f g : String) (v : Value) (i : Bool) (r : Registry)
    → slot lbl f (register_metadata lbl g v i r)
      ≡ (if f == g then (some v, some i) else slot lbl f r)
unfolding register_metadata
slot-register_metadata lbl f g v i r = ground (
  arith,
  field_beq lbl f g,
  lookup-insert (metadata_key lbl f) (metadata_key lbl g) v r.metadata,
  lookup-insert (metadata_key lbl f) (metadata_key lbl g) i r.inheritance,
)

-- The field that a step has registered last.
pub registered_here :
    (lbl f : String) (v : Value) (i : Bool) (r : Registry) {next : Registry}
    → ◌≡◌ {A = Result MetadataError Registry} (ok (register_metadata lbl f v i r)) (ok next)
    → slot lbl f next ≡ (some v, some i)
registered_here lbl f v i r e =
    subst (λ q. slot lbl f q ≡ (some v, some i)) (ok_injective e)
      (ground (arith, slot-register_metadata lbl f f v i r, string_eq.beq_iff f f))

module _ (lbl f : String) where
  -- The step leaves what is held for the field.
  abbrev pub Keeps : Step → Type 0
  Keeps step = (r next : Registry) → step r ≡ ok next → slot lbl f next ≡ slot lbl f r

  pub Keeps-register :
      (g : String) (v : Value) (i : Bool) (r : Registry)
      → (f == g) ≡ false
      → slot lbl f (register_metadata lbl g v i r) ≡ slot lbl f r
  Keeps-register g v i r h = ground (arith, slot-register_metadata lbl f g v i r)

  pub Keeps-register_if :
      (b : Bool) (g : String) (v : Value) (i : Bool) (r : Registry)
      → (f == g) ≡ false
      → slot lbl f (register_if b lbl g v i r) ≡ slot lbl f r
  Keeps-register_if false g v i r h = refl
  Keeps-register_if true g v i r h = Keeps-register g v i r h

  -- A step that registers one field if its reading succeeds.
  pub Keeps-ok :
      (r : Registry) {mid next : Registry}
      → ◌≡◌ {A = Result MetadataError Registry} (ok mid) (ok next)
      → slot lbl f mid ≡ slot lbl f r
      → slot lbl f next ≡ slot lbl f r
  Keeps-ok r e h = subst (λ q. slot lbl f q ≡ slot lbl f r) (ok_injective e) h

  pub Keeps-step_if : (b : Bool) (step : Step) → Keeps step → Keeps (step_if b step)
  Keeps-step_if false step h r next e = ground arith
  Keeps-step_if true step h r next e = h r next e
