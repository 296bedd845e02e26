-- ===== src/Tiles/Requests/Laws.antt =====
-- What a tile request asks for, and what a capabilities document shows.
use datacube_ows.Base.{
  raise_if-ok, ℕ, ◌<◌, ◌≡◌, refl, sym, ap, ◌∙◌, subst, inl, inr, Bool, true, false, ◌||◌, ◌&&◌,
  Option, none, some, List, [], ◌∷◌, String, string_eq, ◌==◌, if◌then◌else◌, Result, ok, err, ◌>>=◌,
  >>=-eq-ok, Bool-cases, any, contains, lookup, get_elem?, length, arith, or_raise,
}
use datacube_ows.Base.Int.{ℤ, pos, pos_part, ltb_ℤ, leb_ℤ}
use datacube_ows.Base.Text.{split, lower}
use datacube_ows.Base.Float.{Floats}
use datacube_ows.Tiles.Sets.{TileMatrixSet, Box, bbox_at, wms_bbox_coords, get_geobox_xy}
use datacube_ows.Tiles.Sets.Boxes.{
  TileBox, bbox_at-TileBox, get_geobox_xy-bbox_at, wms_bbox_coords-some,
}
use datacube_ows.Tiles.Requests.{
  Sections, nothing, everything, WmtsError, invalid_section, invalid_tile_matrix, invalid_row,
  invalid_col, index_error, add_section, add_sections, shown_sections, Args, int_arg, WmsArgs, Sets,
  find_set, print_box, wmts_args_to_wms,
}

abbrev section_names : List String
section_names =
    "all" ∷ "serviceidentification" ∷ "serviceprovider" ∷ "operationsmetadata" ∷ "contents"
    ∷ "themes" ∷ []

-- Every name of the list is one of a section.
abbrev pub all_valid : List String → Bool
all_valid [] = true
all_valid (s ∷ ss) = contains s section_names && all_valid ss

-- A section is named, by its own name or by "all".
abbrev pub named : String → List String → Bool
named k ss = any (λ s. s == "all" || s == k) ss

-- The sections that the names add to those shown.
abbrev pub with_named : Sections → List String → Sections
with_named shown ss = record {
  service_id = shown.service_id || named "serviceidentification" ss;
  service_provider = shown.service_provider || named "serviceprovider" ss;
  ops_metadata = shown.ops_metadata || named "operationsmetadata" ss;
  contents = shown.contents || named "contents" ss;
  themes = shown.themes || named "themes" ss;
}

-- One name: it is valid, and then it adds what it names.
abbrev Adds : Sections → String → Type 0
Adds shown s =
    add_section s shown
    ≡ (if contains s section_names then some (with_named shown (s ∷ [])) else none)

at_name : (P : String → Type 0) (s a : String) → (s == a) ≡ true → P a → P s
at_name P s a h p = subst P (sym ((string_eq.beq_iff s a).0 h)) p

-- Splits on the name: one of the sections, or none of them.
section_cases :
    (P : String → Type 0)
    → P "all"
    → P "serviceidentification"
    → P "serviceprovider"
    → P "operationsmetadata"
    → P "contents"
    → P "themes"
    → ((s : String) → contains s section_names ≡ false → P s)
    → (s : String) → P s
section_cases P all id provider ops contents themes other s = elim (Bool-cases (s == "all")) [
  | inl e0 ↦ at_name P s "all" e0 all
  | inr n0 ↦ elim (Bool-cases (s == "serviceidentification")) [
    | inl e1 ↦ at_name P s "serviceidentification" e1 id
    | inr n1 ↦ elim (Bool-cases (s == "serviceprovider")) [
      | inl e2 ↦ at_name P s "serviceprovider" e2 provider
      | inr n2 ↦ elim (Bool-cases (s == "operationsmetadata")) [
        | inl e3 ↦ at_name P s "operationsmetadata" e3 ops
        | inr n3 ↦ elim (Bool-cases (s == "contents")) [
          | inl e4 ↦ at_name P s "contents" e4 contents
          | inr n4 ↦ elim (Bool-cases (s == "themes")) [
            | inl e5 ↦ at_name P s "themes" e5 themes
            | inr n5 ↦ other s (ground arith)
          ]
        ]
      ]
    ]
  ]
]

no_section :
    (shown : Sections) (s : String) → contains s section_names ≡ false → add_section s shown ≡ none
unfolding add_section
no_section shown s h = ground arith

add_section-with_named : (shown : Sections) (s : String) → Adds shown s
unfolding add_section
add_section-with_named shown =
    section_cases (Adds shown) (ground arith) (ground arith) (ground arith) (ground arith)
      (ground arith) (ground arith)
      (λ s h.
        no_section shown s h
        ∙ ap (λ b. if b then some (with_named shown (s ∷ [])) else none) (sym h))

with_named-cons :
    (shown : Sections) (s : String) (ss : List String)
    → with_named (with_named shown (s ∷ [])) ss ≡ with_named shown (s ∷ ss)
with_named-cons shown s ss = ground arith

-- One step of the loop, by whether the name is valid.
step_by_validity :
    (c : Bool) (r : Option Sections) (w : Sections) (e : WmtsError)
    (m : Sections → Result WmtsError Sections)
    → r ≡ (if c then some w else none)
    → (or_raise r e >>= m) ≡ (if c then m w else err e)
step_by_validity true r w e m h = rw h refl
step_by_validity false r w e m h = rw h refl

both_valid :
    (c v : Bool) (x y : Sections) (e : WmtsError)
    → x ≡ y
    → (if c then (if v then ok x else err e) else err e) ≡ (if c && v then ok y else err e)
both_valid true true x y e h = ap ok h
both_valid true false x y e h = refl
both_valid false v x y e h = refl

add_sections-with_named :
    (section : String) (ss : List String) (shown : Sections)
    → add_sections section ss shown
      ≡ (if all_valid ss then ok (with_named shown ss) else err (invalid_section section))
unfolding add_sections
add_sections-with_named section [] shown = ground arith
add_sections-with_named section (s ∷ ss) shown =
    let valid = contains s section_names in
    let e = invalid_section section in
    let once = with_named shown (s ∷ []) in
    step_by_validity valid (add_section s shown) once e _ (add_section-with_named shown s)
    ∙ ap (λ r. if valid then r else err e) (add_sections-with_named section ss once)
    ∙ both_valid valid (all_valid ss) _ _ e (with_named-cons shown s ss)

-- The sections of a capabilities document: all of them without a section argument; else exactly those
-- that the comma-separated list names, by their own names or by "all" and in any case, if every name
-- of the list is one of a section, and an error if one is not.
pub shown_sections-named :
    (section : Option String)
    → shown_sections section ≡ elim section [
      | none ↦ ok everything
      | some text ↦
          let names = split b',' (lower text) in
          if all_valid names
          then ok (with_named nothing names)
          else err (invalid_section (lower text))
    ]
unfolding shown_sections
shown_sections-named none = refl
shown_sections-named (some text) =
    add_sections-with_named (lower text) (split b',' (lower text)) nothing

-- The number of a tile matrix that passed the check.
in_range :
    (z : ℤ) (n : ℕ)
    → (ltb_ℤ z (pos 0) || leb_ℤ (pos n) z) ≡ false
    → (z ≡ pos (pos_part z)) × (pos_part z < n)
in_range z n h = ground arith

module _ (fl : Floats) where
  -- What a request for a tile names, and the extent of that tile.
  pub record Names (sets : Sets fl) (args : Args) (tms : TileMatrixSet fl) (scale : fl.F)
      (row col : ℤ) : Type 0 where
    pub set : find_set fl sets (lookup "tilematrixset" args) ≡ some tms
    pub matrix : ℕ
    pub matrix_of : int_arg invalid_tile_matrix (lookup "tilematrix" args) ≡ ok (pos matrix)
    pub scale_of : get_elem? tms.scale_set matrix ≡ some scale
    pub row_of : int_arg invalid_row (lookup "tilerow" args) ≡ ok row
    pub col_of : int_arg invalid_col (lookup "tilecol" args) ≡ ok col

  abbrev crs_of : String → Result WmtsError (WmsArgs fl) → String
  crs_of default (ok wms) = wms.crs
  crs_of default (err _) = default

  abbrev box_of : String → Result WmtsError (WmsArgs fl) → String
  box_of default (ok wms) = wms.bbox
  box_of default (err _) = default

  -- A request for a tile that is accepted names a tile matrix set, a tile matrix of it and a tile, and
  -- the WMS request that answers it is for the coordinate system of the set and for a box, as it is
  -- printed, whose four numbers, in the order in which WMS reads them in that coordinate system, bound
  -- just this tile.
  pub wmts_args_to_wms-extent :
      (print : fl.F → String) (sets : Sets fl) (vertical : String → Bool) (args : Args)
      (wms : WmsArgs fl)
      → wmts_args_to_wms fl print sets vertical args ≡ ok wms
      → (tms : TileMatrixSet fl) × (scale : fl.F) × (row : ℤ) × (col : ℤ) × (box : Box fl) × Names
          sets args tms scale row col
        × (wms.crs ≡ tms.crs_name)
        × (wms.bbox ≡ print_box fl print box)
        × TileBox fl tms scale row col (get_geobox_xy fl (vertical wms.crs) box)
  unfolding wmts_args_to_wms
  wmts_args_to_wms-extent print sets vertical args wms h =
      let (_, _, h1) = >>=-eq-ok (or_raise (lookup "requestid" args) _) _ h in
      let (tms, found, h2) =
        >>=-eq-ok (or_raise (find_set fl sets (lookup "tilematrixset" args)) _) _ h1 in
      let (z, number, h3) =
        >>=-eq-ok (int_arg invalid_tile_matrix (lookup "tilematrix" args)) _ h2 in
      let (range, h4) = raise_if-ok _ invalid_tile_matrix _ h3 in
      let (row, rows, h5) = >>=-eq-ok (int_arg invalid_row (lookup "tilerow" args)) _ h4 in
      let (col, cols, h6) = >>=-eq-ok (int_arg invalid_col (lookup "tilecol" args)) _ h5 in
      let (box, boxed, h7) =
        >>=-eq-ok
          (or_raise (wms_bbox_coords fl (vertical tms.crs_name) tms (pos_part z) row col)
            index_error)
          _ h6 in
      let (natural, _) = in_range z (length tms.scale_set) range in
      let (scale, scaled, at) =
        wms_bbox_coords-some fl (vertical tms.crs_name) tms (pos_part z) row col box
          (ground (arith, boxed)) in
      let crs : wms.crs ≡ tms.crs_name = ap (λ r. crs_of tms.crs_name r) (sym h7) in
      let same : wms.bbox ≡ print_box fl print box =
        ap (λ r. box_of (print_box fl print box) r) (sym h7) in
      let read : get_geobox_xy fl (vertical wms.crs) box ≡ bbox_at fl false tms scale row col =
        ap (λ c. get_geobox_xy fl (vertical c) box) crs
        ∙ ap (λ b. get_geobox_xy fl (vertical tms.crs_name) b) at
        ∙ get_geobox_xy-bbox_at fl (vertical tms.crs_name) tms scale row col in
      (
        tms,
        scale,
        row,
        col,
        box,
        record {
          set = ground (arith, found);
          matrix = pos_part z;
          matrix_of = number ∙ ap ok natural;
          scale_of = scaled;
          row_of = rows;
          col_of = cols;
        },
        crs,
        same,
        subst (TileBox fl tms scale row col) (sym read) (bbox_at-TileBox fl tms scale row col),
      )
