-- ===== src/Metadata/MkvChapters.antt =====
-- src/services/metadata/mkvchapters.h and .cpp: the reader of Matroska chapters. The file is the
-- list of its bytes and is not changed while it is read; its size is below 2^62, so that no sum of
-- a place and of a declared size wraps. The decoder of UTF-8 is an argument.
pub mod Parse
pub mod Vint
pub mod Headers
pub mod Ends
use batorrent.Base.{
  Bool, List, Option, Text, [], codes, drop, false, get_elem?, if◌then◌else◌, is_empty, leb, ltb,
  map, none, not, some, starts_with, suc, take, to_lower, trimmed, true, zero, ℕ, ℤ, ◌%◌, ◌&&◌, ◌*◌,
  ◌+◌, ◌-◌, ◌/◌, ◌==◌, ◌>>=◌, ◌||◌, ◌∷◌,
}
use mathlib.Core.Option

pub record MkvChapter : Type 0 where
  pub start_ms : ℤ
  pub end_ms : ℤ
  pub name : Text
  pub kind : Text

pub record Reader : Type 0 where
  pub bytes : List ℕ
  pub end : ℕ

abbrev pub id_ebml : ℕ
id_ebml = 0x1A45DFA3

abbrev pub id_segment : ℕ
id_segment = 0x18538067

abbrev pub id_chapters : ℕ
id_chapters = 0x1043A770

abbrev pub id_edition : ℕ
id_edition = 0x45B9

abbrev pub id_chapter_atom : ℕ
id_chapter_atom = 0xB6

abbrev pub id_time_start : ℕ
id_time_start = 0x91

abbrev pub id_time_end : ℕ
id_time_end = 0x92

abbrev pub id_display : ℕ
id_display = 0x80

abbrev pub id_chap_string : ℕ
id_chap_string = 0x85

abbrev pub max_chapters : ℕ
max_chapters = 500

abbrev pub max_name_len : ℕ
max_name_len = 4096

-- The levels at which a call still reads: its depth is at most MAX_DEPTH.
abbrev pub levels : ℕ
levels = 9

-- The loop on the mask: `first & mask` is the bit of the mask, a power of two. The width found and
-- the mask that found it.
unfoldable pub marker : ℕ → ℕ → ℕ → ℕ → ℕ × ℕ
marker zero first mask len = (len, mask)
marker (suc n) first mask len =
    let more = marker n first (mask / 2) (suc len) in
    if first / mask % 2 == 0 then more else (len, mask)

-- The bytes that follow the first: the number so far, and whether all its bits are ones.
unfoldable pub read_tail : ℕ → Reader → ℕ → ℕ → Bool → Option (ℕ × Bool)
read_tail zero r at v ones = some (v, ones)
read_tail (suc n) r at v ones =
    get_elem? r.bytes at >>= λ b. read_tail n r (suc at) (v * 256 + b) (ones && b == 255)

-- With the first byte, its width and its mask: the place after the number, the number, and whether
-- it means an unknown size.
unfoldable pub read_wide : Reader → ℕ → Bool → ℕ → ℕ × ℕ → Option (ℕ × ℕ × Bool)
unfolding read_tail
read_wide r start keep_marker first (len, mask) =
    if ltb 8 len
    then none
    else if ltb r.end (start + len)
    then none
    else Option.map (λ v. (start + len, v.0, v.1 && not keep_marker))
        (read_tail (len - 1) r (suc start) (if keep_marker then first else first % mask)
          (first % mask == mask - 1))

unfoldable pub read_first : Reader → ℕ → Bool → ℕ → Option (ℕ × ℕ × Bool)
unfolding read_wide marker
read_first r start keep_marker first =
    if first == 0 then none else read_wide r start keep_marker first (marker 8 first 128 1)

unfoldable pub read_vint : Reader → ℕ → Bool → Option (ℕ × ℕ × Bool)
unfolding read_first
read_vint r start keep_marker =
    if leb r.end start then none else (get_elem? r.bytes start >>= read_first r start keep_marker)

-- An element: where its content starts, its id, its size, and whether the size is unknown.
pub record Header : Type 0 where
  pub content : ℕ
  pub id : ℕ
  pub size : ℕ
  pub unknown_size : Bool

unfoldable pub read_size : Reader → ℕ × ℕ × Bool → Option Header
unfolding read_vint
read_size r (start, raw_id, _) =
    if ltb 0xFFFFFFFF raw_id
    then none
    else Option.map (λ s. record { content = s.0; id = raw_id; size = s.1; unknown_size = s.2 })
        (read_vint r start false)

unfoldable pub read_header : Reader → ℕ → Option Header
unfolding read_size
read_header r start = read_vint r start true >>= read_size r

unfoldable pub read_uint : Reader → ℕ → ℕ → Option ℕ
unfolding read_tail
read_uint r start size =
    if size == 0 || ltb 8 size || ltb r.end (start + size)
    then none
    else Option.map (λ v. v.0) (read_tail size r start 0 true)

module _ (from_utf8 : List ℕ → Text) where
  unfoldable pub read_string : Reader → ℕ → ℕ → Text
  unfolding trimmed
  read_string r start size =
      if size == 0 || ltb max_name_len size || ltb r.end (start + size)
      then []
      else trimmed (from_utf8 (take size (drop start r.bytes)))

-- n.contains(word)
unfoldable pub has_word : Text → Text → Bool
unfolding starts_with
has_word [] word = is_empty word
has_word (c ∷ s) word = starts_with (c ∷ s) word || has_word s word

unfoldable pub classify_chapter : Text → Text
unfolding has_word to_lower
classify_chapter name_raw =
    let n = to_lower name_raw in
    if has_word n (codes "intro")
      || has_word n (codes "opening")
      || has_word n (codes "recap")
      || has_word n (codes "previously")
      || has_word n (codes "abertura")
    then codes "intro"
    else if has_word n (codes "credit")
        || has_word n (codes "ending")
        || has_word n (codes "outro")
        || has_word n (codes "encerramento")
    then codes "credits"
    else []

abbrev pub ns_to_ms : ℕ → ℕ
ns_to_ms ns = ns / 1000000
