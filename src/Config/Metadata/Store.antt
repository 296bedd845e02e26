-- ===== src/Config/Metadata/Store.antt =====
-- The registry as a map from labels and fields.
use Prim.Native.String.{◌++◌ as ◌^^◌}
use Prim.Native.Char.{Char, code}
use text.Mathlib.TextLemmas.{
  cons-append, nil-append, cons-ne-nil, head-eq_of_cons-eq, tail-eq_of_cons-eq,
}
use datacube_ows.Base.{
  ◌≡◌, ◌≢◌, refl, sym, ap, ◌∙◌, Bool, false, ◌&&◌, not, Option, none, some, List, [], ◌∷◌, String,
  lookup, contains, lookup-insert, All, ◌==◌, string_eq, nat_eq, arith, if◌then◌else◌, Bool-cases,
  inl, inr,
}
use datacube_ows.Base.Text.{codes}
use datacube_ows.Config.Inherit.{Value, str}
use datacube_ows.Config.Metadata.{
  Registry, Messages, metadata_key, register_metadata, registered, from_catalog, read_metadata,
  read_inheritance,
}

-- A text without a dot.
abbrev pub HasNoDot : String → Type 0
HasNoDot s = contains b'.' (codes s) ≡ false

dotted :
    (c : Char) (s f : String) → metadata_key (String.◌∷◌ c s) f ≡ String.◌∷◌ c (metadata_key s f)
dotted c s f = cons-append c s ("." ^^ f)

undotted : (f : String) → metadata_key "" f ≡ String.◌∷◌ "." f
undotted f =
    nil-append ("." ^^ f) ∙ cons-append "." "" f ∙ ap (λ r. String.◌∷◌ "." r) (nil-append f)

-- A dot that follows a text without one is not inside it.
no_dot_in : (l f g : String) → HasNoDot g → metadata_key l f ≢ g
no_dot_in String.[] f String.[] h e = cons-ne-nil "." f (sym (undotted f) ∙ e)
no_dot_in String.[] f (String.◌∷◌ c g) h e =
    let dot = ap code (sym (head-eq_of_cons-eq (sym (undotted f) ∙ e))) in ground (arith, dot)
no_dot_in (String.◌∷◌ c l) f String.[] h e =
    cons-ne-nil c (metadata_key l f) (sym (dotted c l f) ∙ e)
no_dot_in (String.◌∷◌ c l) f (String.◌∷◌ d g) h e =
    no_dot_in l f g (ground arith) (tail-eq_of_cons-eq (sym (dotted c l f) ∙ e))

metadata_key_injective :
    (l m f g : String)
    → HasNoDot f
    → HasNoDot g
    → metadata_key l f ≡ metadata_key m g
    → (l ≡ m) × (f ≡ g)
metadata_key_injective String.[] String.[] f g p q e =
    (refl, tail-eq_of_cons-eq (sym (undotted f) ∙ e ∙ undotted g))
metadata_key_injective String.[] (String.◌∷◌ d m) f g p q e =
    absurd (no_dot_in m g f p (sym (tail-eq_of_cons-eq (sym (undotted f) ∙ e ∙ dotted d m g))))
metadata_key_injective (String.◌∷◌ c l) String.[] f g p q e =
    absurd (no_dot_in l f g q (tail-eq_of_cons-eq (sym (dotted c l f) ∙ e ∙ undotted g)))
metadata_key_injective (String.◌∷◌ c l) (String.◌∷◌ d m) f g p q e =
    let both = sym (dotted c l f) ∙ e ∙ dotted d m g in
    let (labels, fields) = metadata_key_injective l m f g p q (tail-eq_of_cons-eq both) in
    (ap (λ a. String.◌∷◌ a l) (head-eq_of_cons-eq both) ∙ ap (λ r. String.◌∷◌ d r) labels, fields)

-- The same key is the same label and the same field.
pub metadata_key_beq :
    (l m f g : String)
    → HasNoDot f
    → HasNoDot g
    → (metadata_key l f == metadata_key m g) ≡ (l == m && f == g)
metadata_key_beq l m f g p q = elim (Bool-cases (metadata_key l f == metadata_key m g)) [
  | inl same ↦
      let equal = (string_eq.beq_iff (metadata_key l f) (metadata_key m g)).0 same in
      let (labels, fields) = metadata_key_injective l m f g p q equal in
      ground (arith, string_eq.beq_iff l m, string_eq.beq_iff f g)
  | inr other ↦ elim (Bool-cases (l == m && f == g)) [
    | inl both ↦
        let labels : l ≡ m = ground (arith, string_eq.beq_iff l m) in
        let fields : f ≡ g = ground (arith, string_eq.beq_iff f g) in
        absurd (
          ground (
            arith,
            ap (λ k. metadata_key k f) labels ∙ ap (metadata_key m) fields,
            string_eq.beq_iff (metadata_key l f) (metadata_key m g),
          ))
    | inr apart ↦ ground arith
  ]
]

pub record Registration : Type 0 where
  pub label : String
  pub fld : String
  pub val : Value
  pub inherited : Bool

abbrev pub register_all : List Registration → Registry → Registry
register_all [] self = self
register_all (r ∷ rs) self =
    register_all rs (register_metadata r.label r.fld r.val r.inherited self)

-- The specification: what the last registration for a label and a field says, if there is one.
abbrev pub last_for : String → String → List Registration → Option (Value × Bool)
last_for lbl f [] = none
last_for lbl f (r ∷ rs) =
    let later = last_for lbl f rs in
    let here = if lbl == r.label && f == r.fld then some (r.val, r.inherited) else none in
    elim later [ none ↦ here | some found ↦ some found ]

-- The text that takes the place of a registered one.
abbrev pub replacement : Messages → String → Option String
replacement env key =
    if env.internationalised && not (env.gettext key == key)
    then some (env.gettext key)
    else elim env.msg_src [ none ↦ none | some catalog ↦ catalog key ]

pub read_metadata-replacement :
    (env : Messages) (l f : String) (self : Registry)
    → read_metadata env l f self ≡ (elim (replacement env (metadata_key l f)) [
      | some text ↦ str text
      | none ↦ registered (metadata_key l f) self
    ])
unfolding read_metadata from_catalog registered
read_metadata-replacement env l f self = ground arith

lookup-register_all :
    (l f : String) (rs : List Registration) (self : Registry)
    → HasNoDot f
    → All (λ r. HasNoDot r.fld) rs
    → (lookup (metadata_key l f) (register_all rs self).metadata ≡ (elim (last_for l f rs) [
      | some found ↦ some found.0
      | none ↦ lookup (metadata_key l f) self.metadata
    ]))
      × (lookup (metadata_key l f) (register_all rs self).inheritance ≡ (elim (last_for l f rs) [
        | some found ↦ some found.1
        | none ↦ lookup (metadata_key l f) self.inheritance
      ]))
unfolding register_metadata
lookup-register_all l f [] self p h = (refl, refl)
lookup-register_all l f (r ∷ rs) self p (q, h) =
    let ih =
      lookup-register_all l f rs (register_metadata r.label r.fld r.val r.inherited self) p h in
    let key = metadata_key r.label r.fld in
    let same = metadata_key_beq l r.label f r.fld p q in
    (
      ground (arith, ih.0, same, lookup-insert (metadata_key l f) key r.val self.metadata),
      ground (arith, ih.1, same, lookup-insert (metadata_key l f) key r.inherited self.inheritance),
    )

-- The registry, keyed by texts "label.field", implements a map from pairs of a label and a field, where
-- no field holds a dot: after any sequence of registrations a pair reads as the replacement that a
-- translation or a message gives for its key, and without one as the last registration of the pair
-- itself, or else as before; it is inherited as the last registration of the pair says.
pub read_metadata-register_all :
    (env : Messages) (l f : String) (rs : List Registration) (self : Registry)
    → HasNoDot f
    → All (λ r. HasNoDot r.fld) rs
    → (read_metadata env l f (register_all rs self) ≡ (elim (replacement env (metadata_key l f)) [
      | some text ↦ str text
      | none ↦ elim (last_for l f rs) [
        | some found ↦ found.0
        | none ↦ registered (metadata_key l f) self
      ]
    ]))
      × (read_inheritance l f (register_all rs self)
          ≡ (elim (last_for l f rs) [ some found ↦ found.1 | none ↦ read_inheritance l f self ]))
unfolding read_inheritance registered
read_metadata-register_all env l f rs self p h =
    let law = lookup-register_all l f rs self p h in
    (
      ground (arith, read_metadata-replacement env l f (register_all rs self), law.0),
      ground (arith, law.1),
    )
