-- ===== src/Metadata/MkvChapters/Ends.antt =====
-- The walks of src/services/metadata/mkvchapters.cpp end, and what they give is bounded.
use batorrent.Base.{
  &&-right, All, All-append, Bool, List, Option, Text, [], arith, false, if_cases, if◌then◌else◌,
  inl, inr, leb, leb_ℤ, length, length-append, ltb, ltb→lt, none, not, pos, refl, some, suc, true,
  zero, ℕ, ℤ, ◌&&◌, ◌++◌, ◌+◌, ◌-◌, ◌<◌, ◌==◌, ◌>>=◌, ◌||◌, ◌∙◌, ◌∷◌, ◌≡◌, ◌≤ℤ◌, ◌≤◌, ◌⊎◌,
}
use batorrent.Metadata.MkvChapters.Headers.{read_header_advances}
use batorrent.Metadata.MkvChapters.{
  MkvChapter, Reader, Header, read_header, read_uint, ns_to_ms, id_time_start, id_time_end,
  id_display, id_edition, id_chapter_atom, id_chapters, id_segment, id_ebml, levels,
  classify_chapter, max_chapters, classify_chapter,
}
use batorrent.Metadata.MkvChapters.Parse.{
  goes_on, overruns, with_header, round, set_time, parse_display, atom_child, parse_atom,
  parse_chapter_atom, chapters_child, parse_chapters, find_chapters, walk_segment, walk_file,
  read_mkv_chapters, named, no_chapter,
}

-- A result that is there, with what is known of it.
abbrev pub Yields {ℓ κ} : {A : Type ℓ} → Option A → (A → Type κ) → Type (ℓ ⊔ κ)
Yields {A} o P = (a : A) × (o ≡ some a) × P a

Yields-bind {ℓ κ μ ν} :
    {A : Type ℓ} {B : Type κ} (P : A → Type μ) (Q : B → Type ν) (o : Option A) (f : A → Option B)
    → Yields o P
    → ((a : A) → P a → Yields (f a) Q)
    → Yields (o >>= f) Q
Yields-bind P Q o f (a, e, p) k = let (b, e', q) = k a p in (b, rw e e', q)

-- The kind of a chapter is what its name says, or was never set.
abbrev pub IsClassified : MkvChapter → Type 0
IsClassified ch = (ch.kind ≡ []) ⊎ (ch.kind ≡ classify_chapter ch.name)

-- What holds of each way out of a round holds of the round.
module _ {ℓ κ} {A : Type ℓ} (P : A → Type κ) (r : Reader) (at stop : ℕ) where
  round_cases :
      (test : Bool) (cut ended : A) (next : Header → A)
      → P cut
      → P ended
      → ((h : Header) → test ≡ true → at < h.content → h.content + h.size ≤ stop → P (next h))
      → P (round r at stop test cut ended next)
  unfolding round
  round_cases test cut ended next c d k =
      if_cases P test (λ t. with (read_header r at) (λ h e. k h t (read_header_advances r at e)))
        (λ _. d)
    where
      fits : (h : Header) → overruns h stop ≡ false → h.content + h.size ≤ stop
      fits h e = ground arith

      with :
          (o : Option Header)
          → ((h : Header) → o ≡ some h → h.content + h.size ≤ stop → P (next h))
          → P (with_header o stop cut next)
      with none k = c
      with (some h) k = if_cases P (overruns h stop) (λ _. c) (λ e. k h refl (fits h e))

set_time-kind :
    (o : Option ℕ) (put : ℤ → MkvChapter) (ch : MkvChapter)
    → ((t : ℤ) → (put t).kind ≡ ch.kind)
    → (set_time o put ch).kind ≡ ch.kind
set_time-kind none put ch h = refl
set_time-kind (some ns) put ch h = h (pos (ns_to_ms ns))

module _ (from_utf8 : List ℕ → Text) (r : Reader) where
  parse_display-Yields :
      (n at stop : ℕ) (name : Text)
      → stop - at < n
      → Yields (parse_display from_utf8 r n at stop name) (λ _. Unit {0})
  unfolding parse_display
  parse_display-Yields zero at stop name l = elim l [ ]
  parse_display-Yields (suc n) at stop name l =
      round_cases (λ o. Yields o (λ _. Unit {0})) r at stop (goes_on r at stop) (some name)
        (some name)
        (λ h. parse_display from_utf8 r n (h.content + h.size) stop (named from_utf8 r h name))
        (name, refl, tt) (name, refl, tt)
        (λ h t forward fits.
          parse_display-Yields n (h.content + h.size) stop (named from_utf8 r h name) (omega arith))

  abbrev KeepsKind : MkvChapter → Option MkvChapter → Type 0
  KeepsKind ch o = Yields o (λ (ch' : MkvChapter). ch'.kind ≡ ch.kind)

  atom_child-KeepsKind : (h : Header) (ch : MkvChapter) → KeepsKind ch (atom_child from_utf8 r h ch)
  unfolding atom_child
  atom_child-KeepsKind h ch =
      if_cases (KeepsKind ch) (h.id == id_time_start)
        (λ _. timed (λ t. record ch { start_ms = t }) (λ t. refl))
        (λ _.
          if_cases (KeepsKind ch) (h.id == id_time_end)
            (λ _. timed (λ t. record ch { end_ms = t }) (λ t. refl))
            (λ _.
              if_cases (KeepsKind ch) (h.id == id_display)
                (λ _.
                  Yields-bind (λ _. Unit {0}) (λ ch'. ch'.kind ≡ ch.kind)
                    (parse_display from_utf8 r (suc h.size) h.content (h.content + h.size) ch.name)
                    (λ name. some (record ch { name = name }))
                    (parse_display-Yields (suc h.size) h.content (h.content + h.size) ch.name
                      (omega arith))
                    (λ name _. (_, refl, refl)))
                (λ _. (ch, refl, refl))))
    where
      timed :
          (put : ℤ → MkvChapter)
          → ((t : ℤ) → (put t).kind ≡ ch.kind)
          → KeepsKind ch (some (set_time (read_uint r h.content h.size) put ch))
      timed put k = (_, refl, set_time-kind (read_uint r h.content h.size) put ch k)

  parse_atom-Yields :
      (n at stop : ℕ) (ch : MkvChapter)
      → stop - at < n
      → ch.kind ≡ []
      → Yields (parse_atom from_utf8 r n at stop ch) IsClassified
  unfolding parse_atom
  parse_atom-Yields zero at stop ch l e = elim l [ ]
  parse_atom-Yields (suc n) at stop ch l e =
      round_cases (λ o. Yields o IsClassified) r at stop (goes_on r at stop) (some ch)
        (some (record ch { kind = classify_chapter ch.name }))
        (λ h. atom_child from_utf8 r h ch >>= parse_atom from_utf8 r n (h.content + h.size) stop)
        (ch, refl, inl e) (record ch { kind = classify_chapter ch.name }, refl, inr refl)
        (λ h t forward fits.
          Yields-bind (λ ch'. ch'.kind ≡ ch.kind) IsClassified (atom_child from_utf8 r h ch)
            (parse_atom from_utf8 r n (h.content + h.size) stop) (atom_child-KeepsKind h ch)
            (λ ch' k. parse_atom-Yields n (h.content + h.size) stop ch' (omega arith) (k ∙ e)))

  -- The parse yields, within the limit, chapters whose kinds are their names'.
  abbrev IsFine : List MkvChapter → Type 0
  IsFine out =
      (length out ≤ max_chapters) × All (λ ch. IsClassified ch × (pos 0 ≤ℤ ch.start_ms)) out

  parse_chapter_atom-Yields :
      (level start size : ℕ)
      → Yields (parse_chapter_atom from_utf8 r level start (start + size) no_chapter) IsClassified
  unfolding parse_chapter_atom
  parse_chapter_atom-Yields zero start size = (no_chapter, refl, inl refl)
  parse_chapter_atom-Yields (suc level) start size =
      parse_atom-Yields (suc (start + size - start)) start (start + size) no_chapter (omega arith)
        refl

  keep_chapter :
      (ch : MkvChapter) (out : List MkvChapter)
      → IsClassified ch
      → length out < max_chapters
      → IsFine out
      → IsFine (if leb_ℤ (pos 0) ch.start_ms then out ++ ch ∷ [] else out)
  keep_chapter ch out c l f =
      if_cases IsFine (leb_ℤ (pos 0) ch.start_ms)
        (λ e. (
          omega (arith, length-append out (ch ∷ [])),
          All-append _ out (ch ∷ []) f.1 ((c, started e), tt),
        ))
        (λ _. f)
    where
      started : leb_ℤ (pos 0) ch.start_ms ≡ true → pos 0 ≤ℤ ch.start_ms
      started e = ground arith

  chapters_child-Yields :
      (go : ℕ → ℕ → List MkvChapter → Option (List MkvChapter))
      → ((from to : ℕ) (out : List MkvChapter) → IsFine out → Yields (go from to out) IsFine)
      → (level : ℕ) (h : Header) (out : List MkvChapter) → length out < max_chapters
      → IsFine out
      → Yields (chapters_child from_utf8 r go level h out) IsFine
  unfolding chapters_child
  chapters_child-Yields go k level h out l f =
      if_cases (λ o. Yields o IsFine) (h.id == id_edition)
        (λ _. k h.content (h.content + h.size) out f)
        (λ _.
          if_cases (λ o. Yields o IsFine) (h.id == id_chapter_atom)
            (λ _.
              Yields-bind IsClassified IsFine
                (parse_chapter_atom from_utf8 r level h.content (h.content + h.size) no_chapter)
                (λ ch. some (if leb_ℤ (pos 0) ch.start_ms then out ++ ch ∷ [] else out))
                (parse_chapter_atom-Yields level h.content h.size)
                (λ ch c. (_, refl, keep_chapter ch out c l f)))
            (λ _. (out, refl, f)))

  pub parse_chapters-Yields :
      (level n at stop : ℕ) (out : List MkvChapter)
      → stop - at < n
      → IsFine out
      → Yields (parse_chapters from_utf8 r level n at stop out) IsFine
  unfolding parse_chapters
  parse_chapters-Yields zero n at stop out l f = (out, refl, f)
  parse_chapters-Yields (suc level) zero at stop out l f = elim l [ ]
  parse_chapters-Yields (suc level) (suc n) at stop out l f =
      let go = λ (from to : ℕ). parse_chapters from_utf8 r level (suc (to - from)) from to in
      round_cases (λ o. Yields o IsFine) r at stop
        (goes_on r at stop && ltb (length out) max_chapters) (some out) (some out)
        (λ h.
          chapters_child from_utf8 r go level h out
          >>= parse_chapters from_utf8 r (suc level) n (h.content + h.size) stop)
        (out, refl, f) (out, refl, f)
        (λ h t forward fits.
          Yields-bind IsFine IsFine (chapters_child from_utf8 r go level h out)
            (parse_chapters from_utf8 r (suc level) n (h.content + h.size) stop)
            (chapters_child-Yields go
              (λ from to o. parse_chapters-Yields level (suc (to - from)) from to o (omega arith))
              level h out
              (ltb→lt _ _ (&&-right (goes_on r at stop) (ltb (length out) max_chapters) t)) f)
            (λ o g.
              parse_chapters-Yields (suc level) n (h.content + h.size) stop o (omega arith) g))

  find_chapters-Yields :
      (guard child seg_end : ℕ) → Yields (find_chapters from_utf8 r guard child seg_end) IsFine
  unfolding find_chapters
  find_chapters-Yields zero child seg_end = ([], refl, (omega arith, tt))
  find_chapters-Yields (suc guard) child seg_end =
      round_cases (λ o. Yields o IsFine) r child seg_end (ltb child seg_end) (some []) (some [])
        (λ h.
          if h.id == id_chapters
          then parse_chapters from_utf8 r levels (suc h.size) h.content (h.content + h.size) []
          else if leb (h.content + h.size) child
          then some []
          else find_chapters from_utf8 r guard (h.content + h.size) seg_end)
        none_yet none_yet
        (λ h t forward fits.
          if_cases (λ o. Yields o IsFine) (h.id == id_chapters)
            (λ _.
              parse_chapters-Yields levels (suc h.size) h.content (h.content + h.size) []
                (omega arith) (omega arith, tt))
            (λ _.
              if_cases (λ o. Yields o IsFine) (leb (h.content + h.size) child) (λ _. none_yet)
                (λ _. find_chapters-Yields guard (h.content + h.size) seg_end)))
    where
      none_yet : Yields (some []) IsFine
      none_yet = ([], refl, (omega arith, tt))

  walk_segment-Yields :
      (guard : ℕ) (o : Option Header) → Yields (walk_segment from_utf8 r guard o) IsFine
  unfolding walk_segment
  walk_segment-Yields guard none = ([], refl, (omega arith, tt))
  walk_segment-Yields guard (some h) =
      if_cases (λ o. Yields o IsFine) (h.id == id_segment)
        (λ _. find_chapters-Yields guard h.content _) (λ _. ([], refl, (omega arith, tt)))

  walk_file-Yields : (guard : ℕ) (o : Option Header) → Yields (walk_file from_utf8 r guard o) IsFine
  unfolding walk_file
  walk_file-Yields guard none = ([], refl, (omega arith, tt))
  walk_file-Yields guard (some h) =
      if_cases (λ o. Yields o IsFine) (not (h.id == id_ebml) || overruns h r.end)
        (λ _. ([], refl, (omega arith, tt)))
        (λ _. walk_segment-Yields guard (read_header r (h.content + h.size)))

-- Whatever the bytes of the file, the reader comes to an end, with at most 500 chapters; each starts at a time that is not negative, and
-- its kind is what its name says or is empty.
pub read_mkv_chapters-Yields :
    (from_utf8 : List ℕ → Text) (file : Option (List ℕ))
    → (out : List MkvChapter) × (read_mkv_chapters from_utf8 file ≡ some out)
      × (length out ≤ max_chapters)
      × All (λ ch. IsClassified ch × (pos 0 ≤ℤ ch.start_ms)) out
unfolding read_mkv_chapters
read_mkv_chapters-Yields from_utf8 none = ([], refl, omega arith, tt)
read_mkv_chapters-Yields from_utf8 (some bytes) =
    let r : Reader = record { bytes = bytes; end = length bytes } in
    let (out, e, (n, a)) =
      if_cases (λ o. Yields o (IsFine from_utf8 r)) (ltb r.end 64)
        (λ _. ([], refl, (omega arith, tt)))
        (λ _. walk_file-Yields from_utf8 r 100000 (read_header r 0)) in
    (out, e, n, a)
