-- ===== src/Tests/Metadata.antt =====
-- Runs of src/services/metadata at fixed inputs.
use batorrent.Base.{
  All, List, [], arith, codes, false, length, negsuc, pos, refl, some, ℕ, ◌∷◌, ◌≡◌, ◌≤ℤ◌, ◌≤◌,
}
use batorrent.Metadata.MkvChapters.{MkvChapter, Reader, read_vint}
use batorrent.Metadata.MkvChapters.Parse.{read_mkv_chapters}
use batorrent.Metadata.MkvChapters.Vint.{be_bytes, read_vint-write_vint}
use batorrent.Metadata.MkvChapters.Ends.{IsClassified, read_mkv_chapters-Yields}

-- A file with one chapter, "Opening", at five seconds.
abbrev one_chapter : List ℕ
one_chapter =
    26 ∷ 69 ∷ 223 ∷ 163 ∷ 130 ∷ 66 ∷ 134 ∷ 24 ∷ 83 ∷ 128 ∷ 103 ∷ 255 ∷ 236 ∷ 148 ∷ 0 ∷ 0 ∷ 0 ∷ 0 ∷ 0
    ∷ 0 ∷ 0 ∷ 0 ∷ 0 ∷ 0 ∷ 0 ∷ 0 ∷ 0 ∷ 0 ∷ 0 ∷ 0 ∷ 0 ∷ 0 ∷ 0 ∷ 0 ∷ 16 ∷ 67 ∷ 167 ∷ 112 ∷ 154 ∷ 69
    ∷ 185 ∷ 151 ∷ 182 ∷ 149 ∷ 145 ∷ 136 ∷ 0 ∷ 0 ∷ 0 ∷ 1 ∷ 42 ∷ 5 ∷ 242 ∷ 0 ∷ 128 ∷ 137 ∷ 133 ∷ 135
    ∷ 79 ∷ 112 ∷ 101 ∷ 110 ∷ 105 ∷ 110 ∷ 103 ∷ []

read_opening :
    read_mkv_chapters (λ bytes. bytes) (some one_chapter)
    ≡ some (
        record {
          start_ms = pos 5000;
          end_ms = negsuc 0;
          name = codes "Opening";
          kind = codes "intro";
        }
        ∷ [])
unfolding read_mkv_chapters
read_opening = refl

read_mkv_chapters-Yields_example :
    (out : List MkvChapter) × (read_mkv_chapters (λ bytes. bytes) (some one_chapter) ≡ some out)
    × (length out ≤ 500)
    × All (λ ch. IsClassified ch × (pos 0 ≤ℤ ch.start_ms)) out
read_mkv_chapters-Yields_example = read_mkv_chapters-Yields (λ bytes. bytes) (some one_chapter)

abbrev three_hundred : Reader
three_hundred = record { bytes = 7 ∷ 65 ∷ 44 ∷ []; end = 3 }

read_vint-write_vint_example : read_vint three_hundred 1 false ≡ some (3, 300, false)
unfolding be_bytes
read_vint-write_vint_example =
    read_vint-write_vint three_hundred 1 2 300 (omega arith) (omega arith) (omega arith)
      (omega arith) (refl, (refl, tt))
