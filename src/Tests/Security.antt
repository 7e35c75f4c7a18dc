-- ===== src/Tests/Security.antt =====
-- Runs of src/services/security at fixed inputs.
use batorrent.Base.{
  List, arith, is_some, length, min, pos, refl, replicate, some, text_eq, true, ℕ, ◌++◌, ◌↔◌, ◌∷◌,
  ◌≡◌,
}
use batorrent.Security.MediaSniff.{
  asf_header, asf_script, asf_has_lure, asf_loop, asf_next, lure_at, le32, le64, has_at, judge,
}
use batorrent.Security.MediaSniff.Lure.{LureFrom, asf_has_lure_iff}
use batorrent.Security.MediaSniff.Bounds.{judge_in_bounds}

abbrev word64 : ℕ → List ℕ
word64 n = n ∷ replicate 7 0

-- A header of 100 bytes, an object of 26 bytes, and one with a script.
abbrev lured : List ℕ
lured =
    asf_header
    ++ word64 100
    ++ replicate 6 0
    ++ replicate 16 1
    ++ word64 26
    ++ replicate 2 9
    ++ asf_script
    ++ word64 24

asf_has_lure_iff_example :
    (asf_has_lure lured ≡ some true) ↔ LureFrom lured (min 100 (length lured)) 30
unfolding has_at text_eq le64 le32
asf_has_lure_iff_example = asf_has_lure_iff lured 100 refl (omega arith) refl

lured_found : asf_has_lure lured ≡ some true
unfolding asf_has_lure asf_loop asf_next lure_at le64 le32 has_at text_eq
lured_found = refl

judge_in_bounds_example : is_some (judge lured (pos 80)) ≡ true
judge_in_bounds_example = judge_in_bounds lured (pos 80)
