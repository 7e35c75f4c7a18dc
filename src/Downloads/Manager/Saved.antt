-- ===== src/Downloads/Manager/Saved.antt =====
-- What comes back when the downloads are saved and loaded.
use batorrent.Base.{
  Bool, List, Text, [], false, if◌then◌else◌, is_empty, map, true, ℤ, ◌==◌, ◌∷◌, ◌≡◌,
}
use batorrent.Downloads.HttpDownload.Types.{Segment, HttpDownload, rank}
use batorrent.Downloads.Manager.{Manager}

-- An entry that load() takes up under its own name.
abbrev pub Kept : (Text → Bool) → HttpDownload → Type 0
Kept url_valid d =
    (is_empty d.id ≡ false) × (url_valid d.url ≡ true) × (is_empty d.file_name ≡ false)

-- The numbers of a segment: its range and what it has received.
abbrev pub numbers : Segment → ℤ × ℤ × ℤ
numbers s = (s.range.start, s.range.end, s.received)

-- What a download comes back as.
abbrev pub ComesBackAs : HttpDownload → HttpDownload → Type 0
ComesBackAs d e =
    (e.id ≡ d.id)
    × (e.url ≡ d.url)
    × (e.save_dir ≡ d.save_dir)
    × (e.file_name ≡ d.file_name)
    × (e.total ≡ d.total)
    × (e.accept_ranges ≡ d.accept_ranges)
    × (map numbers e.segments ≡ map numbers d.segments)
    × (rank e.state ≡ (if rank d.state == 4 then 4 else 3))

abbrev pub AllComeBackAs : List HttpDownload → List HttpDownload → Type 0
AllComeBackAs [] es = es ≡ []
AllComeBackAs (d ∷ ds) [] = ⊥
AllComeBackAs (d ∷ ds) (e ∷ es) = ComesBackAs d e × AllComeBackAs ds es
