-- ===== src/Wcs/Fields/Choices.antt =====
-- The bands and the times that a WCS 2 request chooses.
use datacube_ows.Base.{
  raise_if-ok, ok_injective, ℕ, zero, suc, ◌+◌, ◌-◌, ◌≤◌, ◌<◌, ◌≡◌, ◌≢◌, refl, ap, ◌∙◌, subst, inl,
  inr, Bool, true, false, ◌&&◌, not, some, List, [], ◌∷◌, ◌++◌, String, ◌==◌, string_eq, nat_eq, ok,
  >>=-eq-ok, Bool-cases, All, contains, length, take, drop, leb, ltb, arith, get_elem?,
}
use datacube_ows.Base.Text.{codes}
use datacube_ows.Wcs.Fields.{
  RangeItem, field, interval, index_of, field_slice, item_bands, items_bands, request_bands, keep,
  TimeModel, time_bound, trim_times,
}

-- A time is kept exactly if it was there and passes the test.
contains-keep :
    (p : ℕ → Bool) (t : ℕ) (ts : List ℕ) → contains t (keep p ts) ≡ (p t && contains t ts)
contains-keep p t [] = ground arith
contains-keep p t (s ∷ ts) = ground (arith, nat_eq.beq_iff t s, contains-keep p t ts)

-- A trim on time between two bounds that can be read, without a comma, keeps exactly the times of the
-- layer from the lower bound to the upper one, both included.
pub trim_times-within :
    (tm : TimeModel) (low high : String) (l h : ℕ) (times : List ℕ)
    → contains b',' (codes high) ≡ false
    → time_bound tm (some low) ≡ ok (some l)
    → time_bound tm (some high) ≡ ok (some h)
    → (kept : List ℕ) × (trim_times tm (some low) (some high) times ≡ ok kept)
      × ((t : ℕ) → contains t kept ≡ (leb l t && leb t h && contains t times))
unfolding trim_times
trim_times-within tm low high l h times comma lows highs =
    let kept = keep (λ t. leb t h) (keep (λ t. leb l t) times) in
    (
      kept,
      rw (comma, lows, highs) refl,
      λ t.
          contains-keep (λ u. leb u h) t (keep (λ u. leb l u) times)
          ∙ ap (λ b. leb t h && b) (contains-keep (λ u. leb l u) t times)
          ∙ ground arith,
    )

field_slice-same : (i : ℕ) (labels : List String) → i ≢ 0 → field_slice i i labels ≡ []
unfolding field_slice
field_slice-same i labels k =
    let below : ltb i i ≡ false = ground arith in
    let first : (i == 0) ≡ false = ground arith in
    let none_left : i - 1 - i ≡ 0 = omega arith in
    rw (below, first) (ap (λ n. take n (drop i labels)) none_left)

-- A range of one band that is not the first of the layer gives no band at all.
pub item_bands-one :
    (labels : List String) (b : String)
    → contains b labels ≡ true
    → index_of b labels ≢ 0
    → item_bands labels (interval b b) ≡ ok []
unfolding item_bands
item_bands-one labels b h k = rw h (ap ok (field_slice-same (index_of b labels) labels k))

get_elem?-take : (n i : ℕ) (xs : List String) → i < n → get_elem? (take n xs) i ≡ get_elem? xs i
get_elem?-take zero i xs h = elim h [ ]
get_elem?-take (suc n) i [] h = refl
get_elem?-take (suc n) zero (x ∷ xs) h = refl
get_elem?-take (suc n) (suc i) (x ∷ xs) h = get_elem?-take n i xs (omega arith)

get_elem?-drop : (n i : ℕ) (xs : List String) → get_elem? (drop n xs) i ≡ get_elem? xs (n + i)
get_elem?-drop zero i xs = let same : i ≡ zero + i = omega arith in ap (λ k. get_elem? xs k) same
get_elem?-drop (suc n) i [] = refl
get_elem?-drop (suc n) i (x ∷ xs) =
    let same : suc (n + i) ≡ suc n + i = omega arith in
    get_elem?-drop n i xs ∙ ap (λ k. get_elem? (x ∷ xs) k) same

-- A range of bands in the order of the layer gives all bands from the first to the last, both
-- included, in that order.
pub item_bands-ascending :
    (labels : List String) (first last : String)
    → contains first labels ≡ true
    → contains last labels ≡ true
    → index_of first labels < index_of last labels
    → (bands : List String) × (item_bands labels (interval first last) ≡ ok bands)
      × ((i : ℕ)
          → i ≤ index_of last labels - index_of first labels
          → get_elem? bands i ≡ get_elem? labels (index_of first labels + i))
unfolding item_bands field_slice
item_bands-ascending labels first last f l h =
    let start = index_of first labels in
    let end = index_of last labels in
    let above : ltb start end ≡ true = ground arith in
    (
      take (end + 1 - start) (drop start labels),
      rw (f, l, above) refl,
      λ i low.
          get_elem?-take (end + 1 - start) i (drop start labels) (omega arith)
          ∙ get_elem?-drop start i labels,
    )

-- Every band that a request chooses is one of the layer.
abbrev pub Known : List String → List String → Type 0
Known labels bands = All (λ b. contains b labels ≡ true) bands

All-append :
    (labels xs ys : List String) → Known labels xs → Known labels ys → Known labels (xs ++ ys)
All-append labels [] ys h k = k
All-append labels (x ∷ xs) ys (p, h) k = (p, All-append labels xs ys h k)

All-take :
    (labels : List String) (n : ℕ) (xs : List String) → Known labels xs → Known labels (take n xs)
All-take labels zero xs h = tt
All-take labels (suc n) [] h = tt
All-take labels (suc n) (x ∷ xs) (p, h) = (p, All-take labels n xs h)

All-drop :
    (labels : List String) (n : ℕ) (xs : List String) → Known labels xs → Known labels (drop n xs)
All-drop labels zero xs h = h
All-drop labels (suc n) [] h = tt
All-drop labels (suc n) (x ∷ xs) (p, h) = All-drop labels n xs h

Known-after :
    (labels : List String) (x : String) (xs : List String) → Known labels xs → Known (x ∷ labels) xs
Known-after labels x [] h = tt
Known-after labels x (y ∷ ys) (p, h) = (ground arith, Known-after labels x ys h)

Known-itself : (labels : List String) → Known labels labels
Known-itself [] = tt
Known-itself (x ∷ xs) =
    (ground (arith, string_eq.beq_iff x x), Known-after xs x xs (Known-itself xs))

field_slice-Known : (labels : List String) (s e : ℕ) → Known labels (field_slice s e labels)
unfolding field_slice
field_slice-Known labels s e =
    let part : (n : ℕ) → Known labels (take n (drop s labels)) =
      λ n. All-take labels n (drop s labels) (All-drop labels s labels (Known-itself labels)) in
    elim (Bool-cases (ltb s e)) [
      | inl up ↦ rw up (part (e + 1 - s))
      | inr down ↦ elim (Bool-cases (e == 0)) [
        | inl first ↦ rw (down, first) (part (length labels - 1 - s))
        | inr later ↦ rw (down, later) (part (e - 1 - s))
      ]
    ]

item_bands-Known :
    (labels : List String) (item : RangeItem) (bands : List String)
    → item_bands labels item ≡ ok bands
    → Known labels bands
unfolding item_bands
item_bands-Known labels (field name) bands h =
    let (known, e) = raise_if-ok (not (contains name labels)) _ _ h in
    subst (Known labels) (ok_injective e) (ground (arith, known), tt)
item_bands-Known labels (interval a b) bands h =
    let (_, h1) = raise_if-ok (not (contains a labels)) _ _ h in
    let (_, e) = raise_if-ok (not (contains b labels)) _ _ h1 in
    subst (Known labels) (ok_injective e)
      (field_slice-Known labels (index_of a labels) (index_of b labels))

items_bands-Known :
    (labels : List String) (items : List RangeItem) (bands : List String)
    → items_bands labels items ≡ ok bands
    → Known labels bands
unfolding items_bands
items_bands-Known labels [] bands h = subst (Known labels) (ok_injective h) tt
items_bands-Known labels (item ∷ items) bands h =
    let (first, e, h1) = >>=-eq-ok (item_bands labels item) _ h in
    let (rest, e', h2) = >>=-eq-ok (items_bands labels items) _ h1 in
    subst (Known labels) (ok_injective h2) (
      All-append labels first rest (item_bands-Known labels item first e)
        (items_bands-Known labels items rest e'))

-- Every band that an accepted range subset gives is a band of the layer.
pub request_bands-Known :
    (labels : List String) (items : List RangeItem) (bands : List String)
    → request_bands labels items ≡ ok bands
    → Known labels bands
unfolding request_bands
request_bands-Known labels [] bands h = subst (Known labels) (ok_injective h) (Known-itself labels)
request_bands-Known labels (item ∷ items) bands h = items_bands-Known labels (item ∷ items) bands h
