-- ===== src/Config/Entry/Progress.antt =====
-- How an object becomes ready.
use datacube_ows.Base.{
  ◌≡◌, refl, ap, ◌∙◌, true, false, List, [], ◌∷◌, ◌++◌, String, string_eq, arith, contains,
  if◌then◌else◌, Dict,
}
use datacube_ows.Config.Entry.{Entry, set_attribute, make_ready, is_empty}
use datacube_ows.Config.Entry.Phases.{
  Call, assign, finish, perform, perform_all, contains-remove_name,
}

no_name : (ns : List String) → ((n : String) → contains n ns ≡ false) → is_empty ns ≡ true
no_name [] h = refl
no_name (n ∷ ns) h = absurd (ground (arith, h n, string_eq.beq_iff n n))

abbrev pub keys {ℓ} : {V : Type ℓ} → Dict String V → List String
keys [] = []
keys ((n, v) ∷ d) = n ∷ keys d

module _ {V : Type 0} where
  abbrev pub assign_all : Dict String V → List (Call V)
  assign_all [] = []
  assign_all ((n, v) ∷ d) = assign n v ∷ assign_all d

  perform_all-append :
      (cs ds : List (Call V)) (self : Entry V)
      → perform_all (cs ++ ds) self ≡ perform_all ds (perform_all cs self)
  perform_all-append [] ds self = refl
  perform_all-append (c ∷ cs) ds self = perform_all-append cs ds (perform c self)

  contains-assign_all :
      (n : String) (d : Dict String V) (self : Entry V)
      → contains n (perform_all (assign_all d) self).unready_attributes
        ≡ (if contains n (keys d) then false else contains n self.unready_attributes)
  unfolding set_attribute
  contains-assign_all n [] self = refl
  contains-assign_all n ((k, v) ∷ d) self = ground (
    arith,
    contains-assign_all n d (set_attribute k v self),
    contains-remove_name n k self.unready_attributes,
  )

  make_ready_empty :
      (self : Entry V)
      → is_empty self.unready_attributes ≡ true
      → (perform finish self).ready ≡ true
  unfolding make_ready
  make_ready_empty self h = ground arith

  -- Whatever state an object is in, it becomes ready once every attribute that is declared unready is
  -- assigned, in any order and with any values, and `make_ready` is called.
  pub ready_after_assigning :
      (assignments : Dict String V) (self : Entry V)
      → ((n : String)
          → contains n self.unready_attributes ≡ true
          → contains n (keys assignments) ≡ true)
      → (perform_all (assign_all assignments ++ finish ∷ []) self).ready ≡ true
  ready_after_assigning assignments self covered =
      let mid = perform_all (assign_all assignments) self in
      ap (λ q. q.ready) (perform_all-append (assign_all assignments) (finish ∷ []) self)
      ∙ make_ready_empty mid (
          no_name mid.unready_attributes
            λ n. contains-assign_all n assignments self ∙ ground (arith, covered n))
