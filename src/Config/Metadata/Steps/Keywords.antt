-- ===== src/Config/Metadata/Steps/Keywords.antt =====
-- Keywords are registered as one text, and read back from it.
use Prim.Native.String.{◌++◌ as ◌^^◌}
use text.Mathlib.TextLemmas.{cons-append, nil-append}
use mathlib.Core.List.{append_assoc, append-nil}
use datacube_ows.Base.{
  ◌++◌, ◌↔◌, true, ◌⊎◌, ◌≡◌, ◌≢◌, refl, sym, ap, ◌∙◌, false, none, some, List, [], ◌∷◌, String,
  Result, ok, ◌==◌, string_eq, nat_eq, arith, All, contains, Bool-cases, inl, inr,
}
use datacube_ows.Base.Text.{codes, split}
use datacube_ows.Config.Inherit.{str, Fields}
use datacube_ows.Config.Entry.{Entry, EntryError}
use datacube_ows.Config.Metadata.{
  Registry, Messages, Attribute, set_attribute, metadata_key, read_metadata, registered,
  get_metadata_attribute, truthy_text, union,
}
use datacube_ows.Config.Metadata.Store.{replacement, read_metadata-replacement}
use datacube_ows.Config.Metadata.Parse.{MetadataConfig, Host, join}
use datacube_ows.Config.Metadata.Steps.{parse_keywords, local_keyword_set}
use datacube_ows.Config.Metadata.Steps.Slots.{slot, registered_here}

-- A keyword without a comma.
abbrev pub HasNoComma : String → Type 0
HasNoComma s = contains b',' (codes s) ≡ false

split_alone : (s : String) → HasNoComma s → split b',' s ≡ s ∷ []
split_alone String.[] h = refl
split_alone (String.◌∷◌ c s) h = ground (arith, split_alone s (ground arith))

split_first : (s t : String) → HasNoComma s → split b',' (s ^^ ("," ^^ t)) ≡ s ∷ split b',' t
split_first String.[] t h =
    ap (split b',') (nil-append ("," ^^ t) ∙ cons-append "," "" t)
    ∙ ap (λ r. String.[] ∷ split b',' r) (nil-append t)
split_first (String.◌∷◌ c s) t h =
    ap (split b',') (cons-append c s ("," ^^ t)) ∙ ground (arith, split_first s t (ground arith))

split-join :
    (x : String) (xs : List String) → All HasNoComma (x ∷ xs) → split b',' (join (x ∷ xs)) ≡ x ∷ xs
split-join x [] (h, _) = split_alone x h
split-join x (y ∷ xs) (h, hs) =
    split_first x (join (y ∷ xs)) h ∙ ap (λ r. x ∷ r) (split-join y xs hs)

abbrev pub NoRepeats : List String → Type 0
NoRepeats [] = Unit
NoRepeats (x ∷ xs) = (contains x xs ≡ false) × NoRepeats xs

contains-snoc :
    (y x : String) (xs : List String)
    → (contains y (xs ++ x ∷ []) ≡ true) ↔ ((contains y xs ≡ true) ⊎ (y ≡ x))
contains-snoc y x [] = ground (arith, string_eq.beq_iff y x)
contains-snoc y x (z ∷ xs) = ground (arith, contains-snoc y x xs)

-- None of the texts is among the names.
abbrev Fresh : List String → List String → Type 0
Fresh names [] = Unit
Fresh names (x ∷ xs) = (contains x names ≡ false) × Fresh names xs

Fresh-snoc :
    (names : List String) (x : String) (xs : List String)
    → contains x xs ≡ false
    → Fresh names xs
    → Fresh (names ++ x ∷ []) xs
Fresh-snoc names x [] apart fresh = tt
Fresh-snoc names x (y ∷ xs) apart (here, fresh) = (
  ground (arith, apart, here, contains-snoc y x names, string_eq.beq_iff x y),
  Fresh-snoc names x xs (ground (arith, apart)) fresh,
)

union-Fresh :
    (names xs : List String) → NoRepeats xs → Fresh names xs → union names xs ≡ names ++ xs
unfolding union
union-Fresh names [] once fresh = sym (append-nil names)
union-Fresh names (x ∷ xs) (apart, once) (here, fresh) = rw here (
    union-Fresh (names ++ x ∷ []) xs once (Fresh-snoc names x xs apart fresh)
    ∙ append_assoc names (x ∷ []) xs)

Fresh-nil : (xs : List String) → Fresh [] xs
Fresh-nil [] = tt
Fresh-nil (x ∷ xs) = (refl, Fresh-nil xs)

split-join_set :
    (x : String) (xs : List String)
    → All HasNoComma (x ∷ xs)
    → NoRepeats (x ∷ xs)
    → union [] (split b',' (join (x ∷ xs))) ≡ x ∷ xs
split-join_set x xs h once =
    ap (union []) (split-join x xs h) ∙ union-Fresh [] (x ∷ xs) once (Fresh-nil (x ∷ xs))

truthy_join :
    {V : Type 0} (keywords : List String)
    → All HasNoComma keywords
    → NoRepeats keywords
    → keywords ≢ "" ∷ []
    → ◌≡◌ {A = Result EntryError (Attribute V)}
        (elim (truthy_text (str (join keywords))) [
          | none ↦ ok (set_attribute [])
          | some kw ↦ ok (set_attribute (union [] (split b',' kw)))
        ])
        (ok (set_attribute keywords))
unfolding truthy_text
truthy_join [] h once alone = refl
truthy_join (x ∷ xs) h once alone =
    let parts = split-join x xs h in
    let law = split-join_set x xs h once in
    let text = join (x ∷ xs) in
    elim (Bool-cases (text == "")) [
      | inl empty ↦
          let same : text ≡ "" = (string_eq.beq_iff text "").0 empty in
          absurd (alone (sym parts ∙ ap (split b',') same))
      | inr filled ↦ ground (arith, law)
    ]

-- The keywords of an object are read back as they were registered, in the order that the set was
-- iterated in, if no translation or message replaces them: if none holds a comma, none is there twice,
-- and they are not the empty text alone.
pub local_keywords-parse_keywords :
    {V : Type 0} (self : MetadataConfig) (cfg : Fields) (host : Host) (env : Messages)
    (entry : Entry V) (keywords : List String) (r next : Registry)
    → local_keyword_set self cfg ≡ ok keywords
    → All HasNoComma (host.set_order keywords)
    → NoRepeats (host.set_order keywords)
    → host.set_order keywords ≢ "" ∷ []
    → replacement env (metadata_key self.obj_label "local_keywords") ≡ none
    → parse_keywords self cfg host r ≡ ok next
    → get_metadata_attribute env self.obj_label next entry "local_keywords"
      ≡ ok (set_attribute (host.set_order keywords))
unfolding get_metadata_attribute parse_keywords registered
local_keywords-parse_keywords self cfg host env entry keywords r next listed h once alone plain e =
    let texts = host.set_order keywords in
    let key = metadata_key self.obj_label "local_keywords" in
    let made : slot self.obj_label "local_keywords" next ≡ (some (str (join texts)), some false) =
      registered_here self.obj_label "local_keywords" (str (join texts)) false r (ground arith) in
    let read : read_metadata env self.obj_label "local_keywords" next ≡ str (join texts) =
      ground (arith, made, read_metadata-replacement env self.obj_label "local_keywords" next) in
    rw read (truthy_join texts h once alone)
