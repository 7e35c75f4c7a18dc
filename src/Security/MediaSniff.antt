-- ===== src/Security/MediaSniff.antt =====
-- src/services/security/mediasniff.h and .cpp: what the first bytes of a file say that it is. The
-- code reads words at an offset with no test of its own: here such a read is `none` past the end.
pub mod Lure
pub mod Bounds
use batorrent.Base.{
  Bool, List, Option, [], codes, drop, false, get_or, if◌then◌else◌, leb, leb_ℤ, length, ltb, map,
  min, none, not, pos, pos_part, some, starts_with, suc, take, text_eq, to_lower, true, zero, ℕ, ℤ,
  ◌&&◌, ◌*◌, ◌+◌, ◌-◌, ◌==◌, ◌||◌, ◌∷◌,
}
use mathlib.Core.Option

pub data Kind : Type 0 where
  unknown : Kind
  matroska mp4 avi mpeg_ts mpeg_ps flv asf : Kind
  executable archive document web_page : Kind

pub data Verdict : Type 0 where
  need_more ok disguised lure : Verdict

abbrev pub head_bytes_wanted : ℕ
head_bytes_wanted = 65536

-- clamp(fileSize, 0, 64 KiB)
unfoldable pub head_wanted : ℤ → ℕ
head_wanted file_size = min (pos_part file_size) head_bytes_wanted

-- at(b, off, sig, len)
unfoldable pub has_at : List ℕ → ℕ → List ℕ → Bool
unfolding text_eq
has_at b off sig = leb (off + length sig) (length b) && text_eq (take (length sig) (drop off b)) sig

unfoldable pub le32 : List ℕ → ℕ → Option ℕ
le32 b off =
    if ltb (length b) (off + 4)
    then none
    else some (
        get_or b off 0
        + get_or b (off + 1) 0 * 256
        + get_or b (off + 2) 0 * 65536
        + get_or b (off + 3) 0 * 16777216)

abbrev join64 : Option ℕ → Option ℕ → Option ℕ
join64 (some low) (some high) = some (low + high * 4294967296)
join64 _ _ = none

unfoldable pub le64 : List ℕ → ℕ → Option ℕ
unfolding le32
le64 b off = join64 (le32 b off) (le32 b (off + 4))

abbrev pub asf_header : List ℕ
asf_header =
    48 ∷ 38 ∷ 178 ∷ 117 ∷ 142 ∷ 102 ∷ 207 ∷ 17 ∷ 166 ∷ 217 ∷ 0 ∷ 170 ∷ 0 ∷ 98 ∷ 206 ∷ 108 ∷ []

abbrev pub asf_encryption : List ℕ
asf_encryption =
    251 ∷ 179 ∷ 17 ∷ 34 ∷ 35 ∷ 189 ∷ 210 ∷ 17 ∷ 180 ∷ 183 ∷ 0 ∷ 160 ∷ 201 ∷ 85 ∷ 252 ∷ 110 ∷ []

abbrev pub asf_ext_encrypt : List ℕ
asf_ext_encrypt =
    20 ∷ 230 ∷ 138 ∷ 41 ∷ 34 ∷ 38 ∷ 23 ∷ 76 ∷ 185 ∷ 53 ∷ 218 ∷ 224 ∷ 126 ∷ 233 ∷ 40 ∷ 156 ∷ []

abbrev pub asf_script : List ℕ
asf_script = 48 ∷ 26 ∷ 251 ∷ 30 ∷ 98 ∷ 11 ∷ 208 ∷ 17 ∷ 163 ∷ 155 ∷ 0 ∷ 160 ∷ 201 ∷ 3 ∷ 72 ∷ 246 ∷ []

-- The PE signature is where the word at 0x3C says.
abbrev pub pe_at : List ℕ → Option ℕ → Option Bool
pe_at b none = none
pe_at b (some off) = some (has_at b off (80 ∷ 69 ∷ 0 ∷ 0 ∷ []))

unfoldable pub is_portable_executable : List ℕ → Option Bool
unfolding has_at le32
is_portable_executable b =
    if not (has_at b 0 (codes "MZ")) || ltb (length b) 64 then some false else pe_at b (le32 b 60)

-- b.at(i), which is not read at the end or past it.
abbrev pub is_sync : List ℕ → ℕ → Bool
is_sync b i = not (leb (length b) i) && get_or b i 0 == 71

unfoldable pub synced : List ℕ → ℕ → ℕ → Bool
synced b first stride =
    is_sync b first && is_sync b (first + stride) && is_sync b (first + 2 * stride)

unfoldable pub is_transport_stream : List ℕ → Bool
unfolding synced
is_transport_stream b = synced b 0 188 || synced b 4 192

-- QChar::isSpace of a byte: the blanks, the next line and the no-break space.
abbrev pub is_space : ℕ → Bool
is_space c = leb 9 c && leb c 13 || c == 32 || c == 133 || c == 160

-- The bytes after the blanks at the start, up to place 512; `n` places are left before it.
unfoldable pub skip_space : ℕ → List ℕ → List ℕ
skip_space zero b = b
skip_space (suc n) [] = []
skip_space (suc n) (c ∷ b) = let rest = skip_space n b in if is_space c then rest else c ∷ b

unfoldable pub is_web_page : List ℕ → Bool
unfolding has_at skip_space to_lower starts_with
is_web_page b =
    let i = if has_at b 0 (239 ∷ 187 ∷ 191 ∷ []) then 3 else 0 in
    let lead = to_lower (take 16 (skip_space (512 - i) (drop i b))) in
    starts_with lead (codes "<!doctype html")
    || starts_with lead (codes "<html")
    || starts_with lead (codes "<script")
    || starts_with lead (codes "<asx")

abbrev pub any_at : List ℕ → ℕ → List (List ℕ) → Bool
any_at b off [] = false
any_at b off (s ∷ ss) = has_at b off s || any_at b off ss

abbrev pub mp4_boxes : List (List ℕ)
mp4_boxes =
    codes "ftyp"
    ∷ codes "moov"
    ∷ codes "mdat"
    ∷ codes "free"
    ∷ codes "skip"
    ∷ codes "wide"
    ∷ codes "pnot"
    ∷ []

-- ELF, Mach-O in four forms, a universal binary, a shortcut of Windows and a script.
abbrev pub executables : List (List ℕ)
executables =
    (127 ∷ codes "ELF")
    ∷ (254 ∷ 237 ∷ 250 ∷ 206 ∷ [])
    ∷ (254 ∷ 237 ∷ 250 ∷ 207 ∷ [])
    ∷ (206 ∷ 250 ∷ 237 ∷ 254 ∷ [])
    ∷ (207 ∷ 250 ∷ 237 ∷ 254 ∷ [])
    ∷ (202 ∷ 254 ∷ 186 ∷ 190 ∷ [])
    ∷ (76 ∷ 0 ∷ 0 ∷ 0 ∷ 1 ∷ 20 ∷ 2 ∷ 0 ∷ [])
    ∷ codes "#!"
    ∷ []

abbrev pub archives : List (List ℕ)
archives =
    (80 ∷ 75 ∷ 3 ∷ 4 ∷ [])
    ∷ (80 ∷ 75 ∷ 5 ∷ 6 ∷ [])
    ∷ (82 ∷ 97 ∷ 114 ∷ 33 ∷ 26 ∷ 7 ∷ [])
    ∷ (55 ∷ 122 ∷ 188 ∷ 175 ∷ 39 ∷ 28 ∷ [])
    ∷ (31 ∷ 139 ∷ [])
    ∷ codes "MSCF"
    ∷ []

abbrev pub documents : List (List ℕ)
documents = codes "%PDF-" ∷ (208 ∷ 207 ∷ 17 ∷ 224 ∷ 161 ∷ 177 ∷ 26 ∷ 225 ∷ []) ∷ []

-- What is no media; `pe` is whether it is a program of Windows.
unfoldable pub identify_other : List ℕ → Bool → Kind
unfolding is_web_page has_at
identify_other b pe =
    if pe || any_at b 0 executables
    then executable
    else if any_at b 0 archives
    then archive
    else if any_at b 0 documents
    then document
    else if is_web_page b
    then web_page
    else unknown

unfoldable pub identify : List ℕ → Option Kind
unfolding has_at is_transport_stream is_portable_executable identify_other
identify b =
    if has_at b 0 (26 ∷ 69 ∷ 223 ∷ 163 ∷ [])
    then some matroska
    else if has_at b 0 asf_header
    then some asf
    else if any_at b 4 mp4_boxes
    then some mp4
    else if has_at b 0 (codes "RIFF") && (has_at b 8 (codes "AVI ") || has_at b 8 (codes "AVIX"))
    then some avi
    else if has_at b 0 (70 ∷ 76 ∷ 86 ∷ 1 ∷ [])
    then some flv
    else if has_at b 0 (0 ∷ 0 ∷ 1 ∷ 186 ∷ []) || has_at b 0 (0 ∷ 0 ∷ 1 ∷ 179 ∷ [])
    then some mpeg_ps
    else if is_transport_stream b
    then some mpeg_ts
    else Option.map (identify_other b) (is_portable_executable b)

-- One of the three objects that send the viewer elsewhere.
unfoldable pub lure_at : List ℕ → ℕ → Bool
unfolding has_at
lure_at b off =
    has_at b off asf_encryption || has_at b off asf_ext_encrypt || has_at b off asf_script

-- The object's size: too small or past the end ends the walk.
unfoldable pub asf_next : (ℕ → Option Bool) → ℕ → ℕ → Option ℕ → Option Bool
asf_next go end off none = none
asf_next go end off (some size) =
    let rest = go (off + size) in if ltb size 24 || ltb (end - off) size then some false else rest

-- The loop over the objects with `n` rounds at most.
unfoldable pub asf_loop : ℕ → List ℕ → ℕ → ℕ → Option Bool
unfolding lure_at asf_next le64
asf_loop zero b end off = some false
asf_loop (suc n) b end off =
    let rest = asf_next (asf_loop n b end) end off (le64 b (off + 16)) in
    if ltb end (off + 24) then some false else if lure_at b off then some true else rest

abbrev pub asf_walk : List ℕ → Option ℕ → Option Bool
asf_walk b none = none
asf_walk b (some size) = asf_loop (length b) b (min size (length b)) 30

-- Each object takes 24 bytes or more, so there are fewer rounds than bytes.
unfoldable pub asf_has_lure : List ℕ → Option Bool
unfolding has_at le64 asf_loop
asf_has_lure b =
    if not (has_at b 0 asf_header) || ltb (length b) 30 then some false else asf_walk b (le64 b 16)

unfoldable pub judge_kind : List ℕ → Kind → Option Verdict
unfolding asf_has_lure
judge_kind head executable = some disguised
judge_kind head archive = some disguised
judge_kind head document = some disguised
judge_kind head web_page = some disguised
judge_kind head asf = Option.map (λ (b : Bool). if b then lure else ok) (asf_has_lure head)
judge_kind head _ = some ok

unfoldable pub judge : List ℕ → ℤ → Option Verdict
unfolding head_wanted identify judge_kind
judge head file_size =
    if leb_ℤ file_size (pos 0) || ltb (length head) (head_wanted file_size)
    then some need_more
    else elim (identify head) [ none ↦ none | some k ↦ judge_kind head k ]
