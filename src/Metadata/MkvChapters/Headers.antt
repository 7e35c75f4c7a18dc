-- ===== src/Metadata/MkvChapters/Headers.antt =====
-- The headers of src/services/metadata/mkvchapters.cpp: reading one goes forward.
use batorrent.Base.{
  >>=-eq-some, Bool, Option-cases, arith, else-eq-some, false, get_elem?, inl, inr, leb, some, suc,
  true, zero, ℕ, ◌/◌, ◌<◌, ◌==◌, ◌>>=◌, ◌≡◌, ◌≤◌,
}
use batorrent.Metadata.MkvChapters.{
  Reader, Header, marker, read_wide, read_first, read_vint, read_size, read_header,
}

-- The width that the first byte gives is one at least.
marker-le : (n first mask len : ℕ) → len ≤ (marker n first mask len).0
unfolding marker
marker-le zero first mask len = omega arith
marker-le (suc n) first mask len = ground (arith, marker-le n first (mask / 2) (suc len))

read_wide_advances :
    (r : Reader) (at : ℕ) (keep : Bool) (first : ℕ) (w : ℕ × ℕ) {v : ℕ × ℕ × Bool}
    → 0 < w.0
    → read_wide r at keep first w ≡ some v
    → at < v.0
unfolding read_wide
read_wide_advances r at keep first (len, mask) h e = ground arith

read_vint_advances :
    (r : Reader) (at : ℕ) (keep : Bool) {v : ℕ × ℕ × Bool} → read_vint r at keep ≡ some v → at < v.0
unfolding read_vint read_first
read_vint_advances r at keep e =
    let t = leb r.end at in
    let (_, e') = else-eq-some t (get_elem? r.bytes at >>= read_first r at keep) e in
    let (first, _, f) = >>=-eq-some (get_elem? r.bytes at) (read_first r at keep) e' in
    let w = marker 8 first 128 1 in
    read_wide_advances r at keep first w (omega (arith, marker-le 8 first 128 1))
      (else-eq-some (first == 0) (read_wide r at keep first w) f).1

read_size_advances :
    (r : Reader) (v : ℕ × ℕ × Bool) {h : Header} → read_size r v ≡ some h → v.0 < h.content
unfolding read_size
read_size_advances r v e = elim (Option-cases (read_vint r v.0 false)) [
  | inl gone ↦ ground arith
  | inr (s, got) ↦ ground (arith, read_vint_advances r v.0 false got)
]

-- A header takes bytes, so a walk that goes on from its content goes forward.
pub read_header_advances :
    (r : Reader) (at : ℕ) {h : Header} → read_header r at ≡ some h → at < h.content
unfolding read_header
read_header_advances r at e =
    let (v, got, f) = >>=-eq-some (read_vint r at true) (read_size r) e in
    omega (arith, read_vint_advances r at true got, read_size_advances r v f)
