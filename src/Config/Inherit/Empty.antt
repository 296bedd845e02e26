-- ===== src/Config/Inherit/Empty.antt =====
-- Inheriting from an empty configuration.
use datacube_ows.Base.{◌≡◌, refl, ap, sym, ◌∙◌, none, some, String, string_eq, arith}
use datacube_ows.Config.Inherit.{
  Value, null, bool, int, float, str, array, obj, Items, nil, cons, Fields, end, field, get_field,
  set_field, deepupdate, update_value, update_items, deepinherit,
}
use datacube_ows.Config.Inherit.Laws.{UniqueKeys, UniqueIn}

append_fields : Fields → Fields → Fields
append_fields end gs = gs
append_fields (field k v fs) gs = field k v (append_fields fs gs)

append_fields-end : (fs : Fields) → append_fields fs end ≡ fs
unfolding append_fields
append_fields-end end = refl
append_fields-end (field k v fs) = ap (field k v) (append_fields-end fs)

append_fields_assoc :
    (fs : Fields) (k : String) (v : Value) (gs : Fields)
    → append_fields (append_fields fs (field k v end)) gs ≡ append_fields fs (field k v gs)
unfolding append_fields
append_fields_assoc end k v gs = refl
append_fields_assoc (field j w fs) k v gs = ap (field j w) (append_fields_assoc fs k v gs)

get_field-append_fields :
    (k : String) (fs gs : Fields)
    → get_field k (append_fields fs gs)
      ≡ (elim (get_field k fs) [ none ↦ get_field k gs | some v ↦ some v ])
unfolding append_fields
get_field-append_fields k end gs = refl
get_field-append_fields k (field j v fs) gs = ground (arith, get_field-append_fields k fs gs)

set_field_new :
    (k : String) (v : Value) (fs : Fields)
    → get_field k fs ≡ none
    → set_field k v fs ≡ append_fields fs (field k v end)
unfolding append_fields
set_field_new k v end h = refl
set_field_new k v (field j w fs) h = ground (arith, set_field_new k v fs)

-- No key of the child is in the target.
abbrev Disjoint : Fields → Fields → Type 0
Disjoint target end = Unit
Disjoint target (field k v src) = (get_field k target ≡ none) × Disjoint target src

Disjoint-append_fields :
    (target src : Fields) (k : String) (v : Value)
    → Disjoint target src
    → get_field k src ≡ none
    → Disjoint (append_fields target (field k v end)) src
Disjoint-append_fields target end k v d h = tt
Disjoint-append_fields target (field j w src) k v (absent, d) h = (
  rw (get_field-append_fields j target (field k v end))
      (ground (arith, absent, string_eq.beq_iff j k, string_eq.beq_iff k j)),
  Disjoint-append_fields target src k v d (ground arith),
)

Disjoint-end : (src : Fields) → Disjoint end src
Disjoint-end end = tt
Disjoint-end (field k v src) = (refl, Disjoint-end src)

update_items_new : (xs : Items) → update_items none xs ≡ array xs
unfolding update_items
update_items_new nil = refl
update_items_new (cons x xs) = ground arith

deepupdate_step :
    (k : String) (v : Value) (target src : Fields)
    → get_field k target ≡ none
    → update_value none v ≡ some v
    → deepupdate target (field k v src) ≡ deepupdate (append_fields target (field k v end)) src
unfolding deepupdate
deepupdate_step k v target src absent new = ground (arith, set_field_new k v target absent)

mutual
  unfolding deepupdate append_fields

  deepupdate_new :
      (target src : Fields)
      → UniqueKeys src
      → Disjoint target src
      → deepupdate target src ≡ some (append_fields target src)
  deepupdate_new target end u d = ap some (sym (append_fields-end target))
  deepupdate_new target (field k v src) (fresh, inner, u) (absent, d) =
      deepupdate_step k v target src absent (update_value_new v inner)
      ∙ deepupdate_new (append_fields target (field k v end)) src u
          (Disjoint-append_fields target src k v d fresh)
      ∙ ap some (append_fields_assoc target k v src)

  update_value_new : (v : Value) → UniqueIn v → update_value none v ≡ some v
  update_value_new null u = refl
  update_value_new (bool b) u = refl
  update_value_new (int z) u = refl
  update_value_new (float t) u = refl
  update_value_new (str t) u = refl
  update_value_new (array xs) u = ap some (update_items_new xs)
  update_value_new (obj fs) u = rw (deepupdate_new end fs u (Disjoint-end fs))

-- Inheriting from an empty configuration gives the child's configuration, key for key and in its
-- order, where no dictionary of the child has a key twice.
pub deepinherit-end : (child : Fields) → UniqueKeys child → deepinherit end child ≡ some child
unfolding deepinherit append_fields
deepinherit-end child u = deepupdate_new end child u (Disjoint-end child)
