-- ===== src/Security/MediaSniff/Bounds.antt =====
-- src/services/security/mediasniff.cpp: where words are read.
use batorrent.Base.{
  Bool, List, Option, [], arith, codes, false, if_cases, if◌then◌else◌, is_some, leb_ℤ, length, ltb,
  min, none, not, pos, refl, some, true, ℕ, ℤ, ◌&&◌, ◌||◌, ◌∷◌, ◌≡◌, ◌≤◌,
}
use mathlib.Core.Option
use batorrent.Security.MediaSniff.{
  Kind, unknown, matroska, mp4, avi, mpeg_ts, mpeg_ps, flv, asf, executable, archive, document,
  web_page, Verdict, need_more, ok, lure, le32, le64, has_at, asf_header, asf_walk, asf_has_lure,
  pe_at, any_at, mp4_boxes, is_transport_stream, is_portable_executable, identify, identify_other,
  judge, judge_kind, head_wanted,
}
use batorrent.Security.MediaSniff.Lure.{le32-some, le64-some, asf_loop-there}

abbrev IsThere {ℓ} : {A : Type ℓ} → Option A → Type 0
IsThere o = is_some o ≡ true

walk-IsThere : (b : List ℕ) (o : Option ℕ) (size : ℕ) → o ≡ some size → IsThere (asf_walk b o)
walk-IsThere b none size e = cc
walk-IsThere b (some s) size e = asf_loop-there b (min s (length b)) (omega arith) (length b) 30

asf_has_lure-IsThere : (b : List ℕ) → IsThere (asf_has_lure b)
unfolding asf_has_lure
asf_has_lure-IsThere b =
    if_cases (λ (r : Option Bool). IsThere r) (not (has_at b 0 asf_header) || ltb (length b) 30)
      {x = some false} {y = asf_walk b (le64 b 16)} (λ _. refl)
      (λ q.
        let (size, e) = le64-some b 16 (room (not (has_at b 0 asf_header)) (length b) q) in
        walk-IsThere b (le64 b 16) size e)
  where
    room : (a : Bool) (l : ℕ) → a || ltb l 30 ≡ false → 24 ≤ l
    room a l h = ground arith

pe-IsThere : (b : List ℕ) (o : Option ℕ) (off : ℕ) → o ≡ some off → IsThere (pe_at b o)
pe-IsThere b none off e = cc
pe-IsThere b (some x) off e = refl

is_portable_executable-IsThere : (b : List ℕ) → IsThere (is_portable_executable b)
unfolding is_portable_executable
is_portable_executable-IsThere b =
    if_cases (λ (r : Option Bool). IsThere r) (not (has_at b 0 (codes "MZ")) || ltb (length b) 64)
      {x = some false} {y = pe_at b (le32 b 60)} (λ _. refl)
      (λ q.
        let (off, e) = le32-some b 60 (room (not (has_at b 0 (codes "MZ"))) (length b) q) in
        pe-IsThere b (le32 b 60) off e)
  where
    room : (a : Bool) (l : ℕ) → a || ltb l 64 ≡ false → 64 ≤ l
    room a l h = ground arith

map-IsThere : {A B : Type 0} (f : A → B) (o : Option A) → IsThere o → IsThere (Option.map f o)
map-IsThere f none h = cc
map-IsThere f (some a) h = refl

or_else-IsThere :
    (c : Bool) (k : Kind) (o : Option Kind) → IsThere o → IsThere (if c then some k else o)
or_else-IsThere true k o h = refl
or_else-IsThere false k o h = h

identify-IsThere : (b : List ℕ) → IsThere (identify b)
unfolding identify
identify-IsThere b = or_else-IsThere (has_at b 0 (26 ∷ 69 ∷ 223 ∷ 163 ∷ [])) matroska _ (
    or_else-IsThere (has_at b 0 asf_header) asf _ (
      or_else-IsThere (any_at b 4 mp4_boxes) mp4 _ (
        or_else-IsThere
          (has_at b 0 (codes "RIFF") && (has_at b 8 (codes "AVI ") || has_at b 8 (codes "AVIX")))
          avi _
          (or_else-IsThere (has_at b 0 (70 ∷ 76 ∷ 86 ∷ 1 ∷ [])) flv _ (
            or_else-IsThere (has_at b 0 (0 ∷ 0 ∷ 1 ∷ 186 ∷ []) || has_at b 0 (0 ∷ 0 ∷ 1 ∷ 179 ∷ []))
              mpeg_ps _
              (or_else-IsThere (is_transport_stream b) mpeg_ts _ (
                map-IsThere (identify_other b) (is_portable_executable b)
                  (is_portable_executable-IsThere b))))))))

judge_kind-IsThere : (b : List ℕ) (k : Kind) → IsThere (judge_kind b k)
unfolding judge_kind
judge_kind-IsThere b asf =
    map-IsThere (λ (l : Bool). if l then lure else ok) (asf_has_lure b) (asf_has_lure-IsThere b)
judge_kind-IsThere b unknown = refl
judge_kind-IsThere b matroska = refl
judge_kind-IsThere b mp4 = refl
judge_kind-IsThere b avi = refl
judge_kind-IsThere b mpeg_ts = refl
judge_kind-IsThere b mpeg_ps = refl
judge_kind-IsThere b flv = refl
judge_kind-IsThere b executable = refl
judge_kind-IsThere b archive = refl
judge_kind-IsThere b document = refl
judge_kind-IsThere b web_page = refl

judged :
    (b : List ℕ) (o : Option Kind)
    → IsThere o
    → IsThere (elim o as (λ _. Option Verdict) [ none ↦ none | some k ↦ judge_kind b k ])
judged b none h = cc
judged b (some k) h = judge_kind-IsThere b k

-- Whatever the bytes and the size of the file, the judgement is reached without a word being read
-- past the end of the bytes.
pub judge_in_bounds : (head : List ℕ) (file_size : ℤ) → is_some (judge head file_size) ≡ true
unfolding judge
judge_in_bounds head file_size =
    if_cases (λ (r : Option Verdict). IsThere r)
      (leb_ℤ file_size (pos 0) || ltb (length head) (head_wanted file_size)) {x = some need_more}
      {y = elim (identify head) [ none ↦ none | some k ↦ judge_kind head k ]} (λ _. refl)
      (λ _. judged head (identify head) (identify-IsThere head))
