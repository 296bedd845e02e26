-- ===== src/Config/Inherit/Laws.antt =====
-- What a child configuration changes in its parent's.
use mathlib.Core.Option
use datacube_ows.Base.{◌≡◌, ◌⊎◌, Option, none, some}
use datacube_ows.Config.Inherit.{
  Value, bool, int, float, array, obj, Items, cons, Fields, end, field, get_field, append_items,
  deepinherit,
}

-- No dictionary has a key twice, at any depth that inheritance goes to.
abbrev mutual
  pub UniqueKeys : Fields → Type 0
  UniqueKeys end = Unit
  UniqueKeys (field k v fs) = (get_field k fs ≡ none) × UniqueIn v × UniqueKeys fs

  pub UniqueIn : Value → Type 0
  UniqueIn (obj fs) = UniqueKeys fs
  UniqueIn _ = Unit

-- The value is a number, or a truth value.
abbrev pub Number : Value → Type 0
Number (bool _) = Unit
Number (int _) = Unit
Number (float _) = Unit
Number _ = ⊥

-- The items of the parent's value, if it is a list, and then those of the child.
abbrev pub after_parent : Option Value → Items → Items
after_parent (some (array ys)) xs = append_items ys xs
after_parent _ xs = xs

-- What a value of the child makes of the parent's, if there is one. A dictionary is inherited from the
-- parent's, or from none, and an empty one leaves a parent's value that is no dictionary; a list is
-- appended to the parent's, unless it is empty or begins with a number; all else is the child's.
abbrev pub Inherits : Value → Option Value → Value → Type 0
Inherits (obj child) none w = (fs : Fields) × (deepinherit end child ≡ some fs) × (w ≡ obj fs)
Inherits (obj child) (some (obj parent)) w =
    (fs : Fields) × (deepinherit parent child ≡ some fs) × (w ≡ obj fs)
Inherits (obj child) (some other) w = (child ≡ end) × (w ≡ other)
Inherits (array (cons x xs)) old w =
    (Number x × (w ≡ array (cons x xs)))
    ⊎ ((¬ Number x) × (w ≡ array (after_parent old (cons x xs))))
Inherits v old w = w ≡ v
