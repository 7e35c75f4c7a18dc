-- ===== src/Metadata/MkvChapters/Parse.antt =====
-- src/services/metadata/mkvchapters.cpp: the walks over the elements, with fuel; `none` means that
-- the fuel ran out.
use batorrent.Base.{
  Bool, List, Option, Text, [], if◌then◌else◌, is_empty, leb, leb_ℤ, length, ltb, min, negsuc, none,
  not, pos, some, suc, zero, ℕ, ℤ, ◌&&◌, ◌++◌, ◌+◌, ◌-◌, ◌==◌, ◌>>=◌, ◌||◌, ◌∷◌,
}
use batorrent.Metadata.MkvChapters.{
  MkvChapter, Reader, Header, read_header, read_uint, read_string, classify_chapter, ns_to_ms,
  id_ebml, id_segment, id_chapters, id_edition, id_chapter_atom, id_time_start, id_time_end,
  id_display, id_chap_string, max_chapters, levels,
}

abbrev pub no_chapter : MkvChapter
no_chapter = record { start_ms = pos 0; end_ms = negsuc 0; name = []; kind = [] }

-- The loops' test.
abbrev pub goes_on : Reader → ℕ → ℕ → Bool
goes_on r at stop = ltb at stop && ltb at r.end

-- A header that cannot be read, or that runs past its parent, ends the walk.

abbrev pub overruns : Header → ℕ → Bool
overruns h stop = h.unknown_size || ltb stop (h.content + h.size)

unfoldable pub with_header {ℓ} : {A : Type ℓ} → Option Header → ℕ → A → (Header → A) → A
with_header none stop cut next = cut
with_header (some h) stop cut next = if overruns h stop then cut else next h

-- A round of each of the loops: what it gives when it is cut short, when it ends by its test, and
-- with the element that is next.
unfoldable pub round {ℓ} : {A : Type ℓ} → Reader → ℕ → ℕ → Bool → A → A → (Header → A) → A
unfolding with_header
round r at stop test cut ended next =
    if test then with_header (read_header r at) stop cut next else ended

abbrev pub set_time : Option ℕ → (ℤ → MkvChapter) → MkvChapter → MkvChapter
set_time none put ch = ch
set_time (some ns) put ch = put (pos (ns_to_ms ns))

module _ (from_utf8 : List ℕ → Text) (r : Reader) where
  abbrev pub named : Header → Text → Text
  named h name =
      if h.id == id_chap_string && is_empty name
      then read_string from_utf8 r h.content h.size
      else name

  -- The loop over a ChapterDisplay.
  unfoldable pub parse_display : ℕ → ℕ → ℕ → Text → Option Text
  unfolding read_string round
  parse_display zero at stop name = none
  parse_display (suc n) at stop name =
      round r at stop (goes_on r at stop) (some name) (some name)
        (λ h. parse_display n (h.content + h.size) stop (named h name))

  -- What a child of an atom sets.
  unfoldable pub atom_child : Header → MkvChapter → Option MkvChapter
  unfolding parse_display read_uint
  atom_child h ch =
      if h.id == id_time_start
      then some (set_time (read_uint r h.content h.size) (λ t. record ch { start_ms = t }) ch)
      else if h.id == id_time_end
      then some (set_time (read_uint r h.content h.size) (λ t. record ch { end_ms = t }) ch)
      else if h.id == id_display
      then parse_display (suc h.size) h.content (h.content + h.size) ch.name
        >>= (λ name. some (record ch { name = name }))
      else some ch

  -- The loop over an atom: only where it ends by its test is the name classified.
  unfoldable pub parse_atom : ℕ → ℕ → ℕ → MkvChapter → Option MkvChapter
  unfolding atom_child classify_chapter
  parse_atom zero at stop ch = none
  parse_atom (suc n) at stop ch =
      round r at stop (goes_on r at stop) (some ch)
        (some (record ch { kind = classify_chapter ch.name }))
        (λ h. atom_child h ch >>= parse_atom n (h.content + h.size) stop)

  unfoldable pub parse_chapter_atom : ℕ → ℕ → ℕ → MkvChapter → Option MkvChapter
  unfolding parse_atom
  parse_chapter_atom zero start stop ch = some ch
  parse_chapter_atom (suc level) start stop ch = parse_atom (suc (stop - start)) start stop ch

  -- What a child of Chapters or of an edition adds; `go` is the call for an edition.
  unfoldable pub chapters_child :
      (ℕ → ℕ → List MkvChapter → Option (List MkvChapter))
      → ℕ
      → Header
      → List MkvChapter
      → Option (List MkvChapter)
  unfolding parse_chapter_atom
  chapters_child go level h out =
      if h.id == id_edition
      then go h.content (h.content + h.size) out
      else if h.id == id_chapter_atom
      then parse_chapter_atom level h.content (h.content + h.size) no_chapter
        >>= (λ ch. some (if leb_ℤ (pos 0) ch.start_ms then out ++ ch ∷ [] else out))
      else some out

  -- With the levels that are left, and the rounds.
  unfoldable pub parse_chapters : ℕ → ℕ → ℕ → ℕ → List MkvChapter → Option (List MkvChapter)
  unfolding chapters_child
  parse_chapters zero n at stop out = some out
  parse_chapters (suc level) zero at stop out = none
  parse_chapters (suc level) (suc n) at stop out =
      round r at stop (goes_on r at stop && ltb (length out) max_chapters) (some out) (some out)
        (λ h.
          chapters_child (λ from to. parse_chapters level (suc (to - from)) from to) level h out
          >>= parse_chapters (suc level) n (h.content + h.size) stop)

  -- The walk over the segment's children: the guard counts its rounds.
  unfoldable pub find_chapters : ℕ → ℕ → ℕ → Option (List MkvChapter)
  unfolding parse_chapters
  find_chapters zero child seg_end = some []
  find_chapters (suc guard) child seg_end =
      round r child seg_end (ltb child seg_end) (some []) (some []) (λ h.
        if h.id == id_chapters
        then parse_chapters levels (suc h.size) h.content (h.content + h.size) []
        else if leb (h.content + h.size) child
        then some []
        else find_chapters guard (h.content + h.size) seg_end)

  unfoldable pub walk_segment : ℕ → Option Header → Option (List MkvChapter)
  unfolding find_chapters
  walk_segment guard none = some []
  walk_segment guard (some h) =
      if h.id == id_segment
      then find_chapters guard h.content
          (if h.unknown_size then r.end else min r.end (h.content + h.size))
      else some []

  unfoldable pub walk_file : ℕ → Option Header → Option (List MkvChapter)
  unfolding walk_segment
  walk_file guard none = some []
  walk_file guard (some h) =
      if not (h.id == id_ebml) || overruns h r.end
      then some []
      else walk_segment guard (read_header r (h.content + h.size))

-- A file that cannot be opened is `none`.
unfoldable pub read_mkv_chapters : (List ℕ → Text) → Option (List ℕ) → Option (List MkvChapter)
unfolding walk_file read_header
read_mkv_chapters from_utf8 none = some []
read_mkv_chapters from_utf8 (some bytes) =
    let r : Reader = record { bytes = bytes; end = length bytes } in
    if ltb r.end 64 then some [] else walk_file from_utf8 r 100000 (read_header r 0)
