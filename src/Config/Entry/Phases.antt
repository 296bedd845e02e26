-- ===== src/Config/Entry/Phases.antt =====
-- What the two phases guarantee.
use datacube_ows.Base.{
  ◌≡◌, ◌≢◌, ◌↔◌, true, false, ◌||◌, List, [], ◌∷◌, ◌++◌, String, string_eq, Result, ok, err, arith,
  contains, lookup-insert, ◌==◌, if◌then◌else◌,
}
use datacube_ows.Config.Entry.{
  EntryError, config_not_ready, Entry, add_name, remove_name, new_entry, declare_unready,
  get_attribute, set_attribute, make_ready,
}

pub contains-remove_name :
    (j k : String) (ns : List String)
    → contains j (remove_name k ns) ≡ (if j == k then false else contains j ns)
unfolding remove_name
contains-remove_name j k [] = ground arith
contains-remove_name j k (n ∷ ns) = ground (
  arith,
  string_eq.beq_iff j k,
  string_eq.beq_iff k n,
  string_eq.beq_iff j n,
  contains-remove_name j k ns,
)

contains-concat :
    (j k : String) (ns : List String) → contains j (ns ++ k ∷ []) ≡ (contains j ns || j == k)
contains-concat j k [] = ground arith
contains-concat j k (n ∷ ns) = ground (arith, contains-concat j k ns)

contains-add_name :
    (j k : String) (ns : List String) → contains j (add_name k ns) ≡ (contains j ns || j == k)
unfolding add_name
contains-add_name j k ns = ground (arith, string_eq.beq_iff j k, contains-concat j k ns)

-- The calls that change an object. A call that raises leaves it as it was.
pub data Call (V : Type 0) : Type 0 where
  declare : String → Call V
  assign : String → V → Call V
  finish : Call V

module _ {V : Type 0} where
  -- Setting an attribute makes it readable with the value that was set, whether or not it was
  -- declared unready; any other attribute reads as a value exactly if it did before, and as the
  -- same one.
  pub get_attribute-set_attribute :
      (j k : String) (v : V) (self : Entry V)
      → (get_attribute k (set_attribute k v self) ≡ ok v)
        × (j ≢ k
            → (w : V)
            → (get_attribute j (set_attribute k v self) ≡ ok w) ↔ (get_attribute j self ≡ ok w))
  unfolding get_attribute set_attribute
  get_attribute-set_attribute j k v self = (
    ground (
      arith,
      string_eq.beq_iff k k,
      contains-remove_name k k self.unready_attributes,
      lookup-insert k k v self.attributes,
    ),
    λ other w. ground (
      arith,
      string_eq.beq_iff j k,
      contains-remove_name j k self.unready_attributes,
      lookup-insert j k v self.attributes,
    ),
  )

  abbrev keep : Entry V → Result EntryError (Entry V) → Entry V
  keep self (ok next) = next
  keep self (err e) = self

  abbrev pub perform : Call V → Entry V → Entry V
  perform (declare name) self = keep self (declare_unready name self)
  perform (assign name v) self = set_attribute name v self
  perform finish self = keep self (make_ready self)

  abbrev pub perform_all : List (Call V) → Entry V → Entry V
  perform_all [] self = self
  perform_all (c ∷ cs) self = perform_all cs (perform c self)

  -- A ready object has no unready attribute.
  abbrev pub IsSettled : Entry V → Type 0
  IsSettled self = self.ready ≡ true → self.unready_attributes ≡ []

  perform-IsSettled : (c : Call V) (self : Entry V) → IsSettled self → IsSettled (perform c self)
  unfolding declare_unready set_attribute make_ready remove_name
  perform-IsSettled (declare name) self h = ground (arith, h)
  perform-IsSettled (assign name v) self h = λ r. rw (h r)
  perform-IsSettled finish self h = ground (arith, h)

  perform-ready : (c : Call V) (self : Entry V) → self.ready ≡ true → (perform c self).ready ≡ true
  unfolding declare_unready set_attribute make_ready
  perform-ready (declare name) self r = ground arith
  perform-ready (assign name v) self r = r
  perform-ready finish self r = ground arith

  perform_all-IsSettled :
      (cs : List (Call V)) (self : Entry V) → IsSettled self → IsSettled (perform_all cs self)
  perform_all-IsSettled [] self h = h
  perform_all-IsSettled (c ∷ cs) self h =
      perform_all-IsSettled cs (perform c self) (perform-IsSettled c self h)

  perform_all-ready :
      (cs : List (Call V)) (self : Entry V) → self.ready ≡ true → (perform_all cs self).ready ≡ true
  perform_all-ready [] self r = r
  perform_all-ready (c ∷ cs) self r = perform_all-ready cs (perform c self) (perform-ready c self r)

  -- Once an object that began as a new one is ready it stays ready, whatever is called on it after,
  -- and no read of an attribute is refused as unready any more.
  pub ready_forever :
      (before after : List (Call V)) (name : String) (names : List String)
      → (perform_all before new_entry).ready ≡ true
      → let self = perform_all after (perform_all before new_entry) in
        (self.ready ≡ true) × (get_attribute name self ≢ err (config_not_ready names))
  unfolding get_attribute new_entry
  ready_forever before after name names r =
      let start = perform_all before new_entry in
      let settled = perform_all-IsSettled before new_entry (λ never. cc) in
      let ready = perform_all-ready after start r in
      (ready, ground (arith, perform_all-IsSettled after start settled ready))
