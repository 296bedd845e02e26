-- ===== src/Config/Inherit.antt =====
-- Inheritance of raw configuration (datacube_ows/config_toolkit.py) on the values that JSON has. A
-- dictionary is a list of fields in insertion order; a TypeError of Python is `none`.
pub mod Laws
pub mod Empty
use mathlib.Core.Option
use datacube_ows.Base.{
  ℕ, Bool, true, false, ◌||◌, Option, none, some, String, ◌==◌, string_eq, if◌then◌else◌,
}
use datacube_ows.Base.Int.{ℤ}

mutual
  pub data Value : Type 0 where
    null : Value
    bool : Bool → Value
    int : ℤ → Value
    -- A float, by its decimal text.
    float : String → Value
    str : String → Value
    array : Items → Value
    obj : Fields → Value

  pub data Items : Type 0 where
    nil : Items
    cons : Value → Items → Items

  pub data Fields : Type 0 where
    end : Fields
    field : String → Value → Fields → Fields

abbrev pub get_field : String → Fields → Option Value
get_field k end = none
get_field k (field j v fs) = if k == j then some v else get_field k fs

-- `target[k] = v`
abbrev pub set_field : String → Value → Fields → Fields
set_field k v end = field k v end
set_field k v (field j w fs) = if k == j then field j v fs else field j w (set_field k v fs)

abbrev pub append_items : Items → Items → Items
append_items nil ys = ys
append_items (cons x xs) ys = cons x (append_items xs ys)

-- `isinstance(v, int) or isinstance(v, float)`; a bool is an int.
pub is_number : Value → Bool
is_number (bool _) = true
is_number (int _) = true
is_number (float _) = true
is_number _ = false

-- The new value for a list of the child, `old` being that of the parent. A sum of values of other
-- types raises a TypeError inside the `try`, so that the child's list is used.
pub update_array : Option Value → Items → Items → Value
update_array (some (array ys)) xs whole = array (append_items ys whole)
update_array _ xs whole = array whole

pub update_items : Option Value → Items → Value
unfolding update_array is_number
update_items old nil = array nil
update_items old (cons x xs) =
    if is_number x then array (cons x xs) else update_array old xs (cons x xs)

abbrev pub is_end : Fields → Bool
is_end end = true
is_end (field k v fs) = false

-- `deepupdate`, and its step for one key: the new value for the child's value. Updating a value
-- that is no dictionary raises a TypeError at the first key.
unfoldable mutual
  unfolding update_items

  pub deepupdate : Fields → Fields → Option Fields
  deepupdate target end = some target
  deepupdate target (field k v src) = elim (update_value (get_field k target) v) [
    | none ↦ none
    | some w ↦ deepupdate (set_field k w target) src
  ]

  pub update_value : Option Value → Value → Option Value
  update_value none (obj src) = Option.map obj (deepupdate end src)
  update_value (some (obj target)) (obj src) = Option.map obj (deepupdate target src)
  update_value (some other) (obj src) = if is_end src then some other else none
  update_value old (array xs) = some (update_items old xs)
  update_value old v = some v

-- `deepinherit`
unfoldable pub deepinherit : Fields → Fields → Option Fields
unfolding deepupdate
deepinherit parent child = deepupdate parent child
