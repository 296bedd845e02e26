-- ===== src/Config/Include/Tests.antt =====
-- Runs of the expansion of inclusions.
use datacube_ows.Base.{
  ◌≡◌, ◌≢◌, refl, some, none, Option, List, [], ◌∷◌, String, ◌==◌, string_eq, if◌then◌else◌, ok,
  err, arith, ℕ, suc, Bool-cases, subst, inl, inr,
}
use datacube_ows.Base.Int.{pos}
use datacube_ows.Config.Inherit.{Value, int, str, array, obj, nil, cons, end, field}
use datacube_ows.Config.Include.{
  Sources, cyclic_inclusion, no_fuel, cfg_expand, expand_within, expand_value, follow, included,
}
use datacube_ows.Config.Include.Expanded.{IsExpanded, cfg_expand-IsExpanded}
use datacube_ows.Config.Include.Depth.{ClosedUnder, IncludesAmong, cfg_expand-fuel}

abbrev inclusion : String → Value
inclusion path = obj (field "include" (str path) end)

abbrev layers : Value
layers = array (cons (int (pos 1)) nil)

-- The file "main" includes "layers" below the key "x"; the file "loop" includes itself.
abbrev files : String → Option Value
files path =
    if path == "main"
    then some (obj (field "x" (inclusion "layers") end))
    else if path == "layers"
    then some layers
    else if path == "loop"
    then some (inclusion "loop")
    else none

abbrev site : Sources
site = record {
  getcwd = "/srv";
  load_json_obj = files;
  dirname = λ path. "/srv";
  join = λ cwd path. path;
  get_object = λ mod_name obj_name. none;
}

abbrev expanded : Value
expanded = obj (field "x" layers end)

main_expanded : cfg_expand site 3 (inclusion "main") none [] ≡ ok expanded
unfolding cfg_expand expand_within expand_value follow included
main_expanded = refl

loop_refused : cfg_expand site 3 (inclusion "loop") none [] ≡ err (cyclic_inclusion "loop")
unfolding cfg_expand expand_within expand_value follow included
loop_refused = refl

cfg_expand-IsExpanded_example :
    IsExpanded expanded
    × ((n : ℕ) (d : Option String) (seen : List String)
        → cfg_expand site (suc n) expanded d seen ≡ ok expanded)
cfg_expand-IsExpanded_example =
    cfg_expand-IsExpanded site 3 (inclusion "main") expanded none [] main_expanded

abbrev names : List String
names = "main" ∷ "layers" ∷ "loop" ∷ []

files-IncludesAmong : (path : String) (v : Value) → files path ≡ some v → IncludesAmong names v
files-IncludesAmong path v e = elim (Bool-cases (path == "main")) [
  | inl main ↦
      subst (IncludesAmong names) {x = obj (field "x" (inclusion "layers") end)} {y = v}
        (ground arith) (refl, tt)
  | inr other ↦ elim (Bool-cases (path == "layers")) [
    | inl found ↦ subst (IncludesAmong names) {x = layers} {y = v} (ground arith) (tt, tt)
    | inr unknown ↦ elim (Bool-cases (path == "loop")) [
      | inl loop ↦ subst (IncludesAmong names) {x = inclusion "loop"} {y = v} (ground arith) refl
      | inr missing ↦ absurd (ground arith)
    ]
  ]
]

site-ClosedUnder : ClosedUnder names site
site-ClosedUnder = (files-IncludesAmong, λ m o v e. ground arith)

cfg_expand-fuel_example : cfg_expand site 4 (inclusion "loop") none [] ≢ err no_fuel
cfg_expand-fuel_example =
    cfg_expand-fuel names site site-ClosedUnder 4 (inclusion "loop") none [] refl (omega arith)
