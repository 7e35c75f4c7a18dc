-- ===== src/Ipc/RemoteSource/Run.antt =====
-- The runs of the device: rounds of reads, and the answers of the interface's process.
use batorrent.Base.{
  All-append, Bool, List, Option, Option-cases, [], ap, arith, false, get_elem?, if_cases,
  if◌then◌else◌, inl, inr, is_empty, leb, length, ltb, ltb_ℤ, max, min, none, not, pos, refl, some,
  true, ||-left, ||-right, ℕ, ℤ, ◌&&◌, ◌++◌, ◌+ℤ◌, ◌+◌, ◌-ℤ◌, ◌-◌, ◌<◌, ◌==◌, ◌||◌, ◌∙◌, ◌∷◌, ◌≡◌,
  ◌≤◌,
}
use batorrent.Ipc.Bytes.{AreAt}
use batorrent.Ipc.RemoteSource.{
  Chunk, Pending, Source, remote_source, copy_cached, pending_covers, Round, asks, waits,
  next_request, to_qint32, ask, read_missing, read_round, find_pending, keep, unwanted, deliver_at,
  answer_bytes, answer_failure, abort, read_ahead,
}
use batorrent.Ipc.RemoteSource.Reads.{
  total_bytes-append, IsSmall, evict-IsSmall, evict-All, IsPart, Inv, RoundIsRight,
  read_round-IsRight, remote_source-Inv, read_round-Inv,
}

module _ (source : ℕ → ℕ) where
  keep-Inv :
      (i offset : ℕ) (bytes : List ℕ) (s : Source)
      → Inv source s
      → IsPart source s.size (record { offset = offset; bytes = bytes })
      → Inv source (keep i offset bytes s)
  unfolding keep
  keep-Inv i offset bytes s (parts, (counted, small)) p =
      let c : Chunk = record { offset = offset; bytes = bytes } in
      let cache = s.cache ++ c ∷ [] in
      (
        evict-All (IsPart source s.size) (length cache) cache (s.cache_bytes + length bytes)
            (All-append (IsPart source s.size) s.cache (c ∷ []) parts (p, tt)),
        evict-IsSmall (length cache) cache (s.cache_bytes + length bytes) (omega arith)
            (omega (arith, counted, total_bytes-append s.cache (c ∷ []))),
      )

  wanted :
      (p : Pending) (offset : ℕ) (bytes : List ℕ) (s : Source)
      → unwanted p offset bytes s ≡ false
      → (0 < length bytes) × (offset + length bytes ≤ s.size)
  wanted p offset bytes s h =
      let a = not (p.offset == offset) in
      let l = ltb_ℤ p.length (pos (length bytes)) in
      (
        some_bytes bytes (
            ||-right a (is_empty bytes) (
              ||-left (a || is_empty bytes) l
                (||-left (a || is_empty bytes || l) (ltb s.size (offset + length bytes)) h))),
        fits s.size (offset + length bytes)
            (||-right (a || is_empty bytes || l) (ltb s.size (offset + length bytes)) h),
      )
    where
      some_bytes : (bs : List ℕ) → is_empty bs ≡ false → 0 < length bs
      some_bytes [] h = cc
      some_bytes (b ∷ bs) h = omega arith

      fits : (n m : ℕ) → ltb n m ≡ false → m ≤ n
      fits n m h = ground arith

  deliver_at-Inv :
      (i offset : ℕ) (o : Option Pending) (bytes : List ℕ) (s : Source)
      → AreAt source offset bytes
      → Inv source s
      → Inv source (deliver_at i o offset bytes s)
  unfolding deliver_at
  deliver_at-Inv i offset none bytes s a v = v
  deliver_at-Inv i offset (some p) bytes s a v =
      if_cases (Inv source) (unwanted p offset bytes s) {x = s} {y = keep i offset bytes s} (λ _. v)
        (λ h. let (n, f) = wanted p offset bytes s h in keep-Inv i offset bytes s v (a, f, n))

  answer_bytes-Inv :
      (id offset : ℕ) (bytes : List ℕ) (s : Source)
      → AreAt source offset bytes
      → Inv source s
      → Inv source (answer_bytes id offset bytes s)
  unfolding answer_bytes
  answer_bytes-Inv id offset bytes s a v = elim (Option-cases (find_pending id s.pending)) [
    | inl e ↦ rw (e, answer_bytes) v
    | inr (i, e) ↦
        rw (e, answer_bytes) (deliver_at-Inv i offset (get_elem? s.pending i) bytes s a v)
  ]

  answer_failure-Inv : (id : ℕ) (s : Source) → Inv source s → Inv source (answer_failure id s)
  unfolding answer_failure
  answer_failure-Inv id s v = elim (Option-cases (find_pending id s.pending)) [
    | inl e ↦ rw (e, answer_failure) v
    | inr (i, e) ↦ rw (e, answer_failure) v
  ]

  -- A round of a read, an answer with bytes of the source for any request, asked for or not, a
  -- refusal, or the end.
  pub data Step : Source → Source → Type 0 where
    reads : (at max_size : ℕ) (s : Source) → Step s (read_round at max_size s).1
    answers :
        (id offset : ℕ) (bytes : List ℕ) (s : Source)
        → AreAt source offset bytes
        → Step s (answer_bytes id offset bytes s)
    fails : (id : ℕ) (s : Source) → Step s (answer_failure id s)
    aborts : (s : Source) → Step s (abort s)

  pub data Reach (s : Source) : Source → Type 0 where
    here : Reach s s
    next : {x y : Source} → Reach s x → Step x y → Reach s y

  Step-Inv : {x y : Source} → Step x y → Inv source x → Inv source y
  unfolding abort
  Step-Inv (reads at max_size s) v = read_round-Inv source at max_size s v
  Step-Inv (answers id offset bytes s a) v = answer_bytes-Inv id offset bytes s a v
  Step-Inv (fails id s) v = answer_failure-Inv id s v
  Step-Inv (aborts s) v = v

  Reach-Inv : {x y : Source} → Inv source x → Reach x y → Inv source y
  Reach-Inv v here = v
  Reach-Inv v (next r s) = Step-Inv s (Reach-Inv v r)

  -- After any sequence of reads, answers, refusals and ends, what a read returns are bytes of the
  -- source, from the place that was asked for, no more than asked for and none past the end, and
  -- none at all only at the end or when none are wanted. The other process is taken to answer with
  -- bytes of the source at the place that it names, for whatever request it names.
  pub read-RoundIsRight :
      (size : ℤ) (s : Source) (at max_size : ℕ)
      → Reach (remote_source size) s
      → RoundIsRight source at max_size s.size (read_round at max_size s).0
  read-RoundIsRight size s at max_size r =
      read_round-IsRight source at max_size s (Reach-Inv (remote_source-Inv source size) r)

  -- After any sequence of reads, answers with bytes of the source, refusals and ends, the cache holds
  -- at most its limit, or one chunk only, and its size is counted right.
  cache-IsSmall :
      (size : ℤ) (s : Source) → Reach (remote_source size) s → IsSmall (s.cache, s.cache_bytes)
  cache-IsSmall size s r = (Reach-Inv (remote_source-Inv source size) r).1

covers-append :
    (ps : List Pending) (p : Pending) (at : ℕ)
    → leb p.offset at && ltb_ℤ (pos at) (pos p.offset +ℤ p.length) ≡ true
    → pending_covers at (ps ++ p ∷ []) ≡ true
unfolding pending_covers
covers-append [] p at h = rw h refl
covers-append (q ∷ ps) p at h =
    or_true (leb q.offset at && ltb_ℤ (pos at) (pos q.offset +ℤ q.length))
      (pending_covers at (ps ++ p ∷ [])) (covers-append ps p at h)
  where
    or_true : (a b : Bool) → b ≡ true → a || b ≡ true
    or_true a b h = ground arith

small_length : (n : ℕ) → n < 2147483648 → to_qint32 n ≡ pos n
unfolding ◌-ℤ◌
small_length n h = ground arith

covered : (at n : ℕ) (l : ℤ) → l ≡ pos n → 0 < n → leb at at && ltb_ℤ (pos at) (pos at +ℤ l) ≡ true
unfolding ◌+ℤ◌
covered at n l e h = rw e (ground arith)

-- A read within the file comes to what the cache has.
open_round :
    (at max_size : ℕ) (s : Source)
    → 0 < max_size
    → at < s.size
    → s.aborted ≡ false
    → s.has_failed ≡ false
    → read_round at max_size s
      ≡ read_missing at max_size s (copy_cached at (min max_size (s.size - at)) s.cache)
unfolding read_round
open_round at max_size s p r a f = rw (reading at s.size max_size p r, a, f) refl
  where
    reading : (at n m : ℕ) → 0 < m → at < n → m == 0 || leb n at ≡ false
    reading at n m h k = ground arith

missed :
    (at max_size : ℕ) (s : Source) (o : Option (List ℕ)) (b : Bool)
    → o ≡ none
    → pending_covers at s.pending ≡ b
    → read_missing at max_size s o ≡ (if b then (waits, s) else ask at max_size s)
unfolding read_missing
missed at max_size s (some bytes) b e h = cc
missed at max_size s none b e h = rw h refl

-- A reader asks once: if a round has asked for bytes, the next one waits. This holds for reads of
-- less than 2 GiB within the file.
pub read_round-waits :
    (at max_size : ℕ) (s : Source)
    → 0 < max_size
    → max_size < 2147483648
    → at < s.size
    → s.aborted ≡ false
    → s.has_failed ≡ false
    → copy_cached at (min max_size (s.size - at)) s.cache ≡ none
    → pending_covers at s.pending ≡ false
    → ((read_round at max_size s).0 ≡ asks (next_request at max_size s))
      × ((read_round at max_size (read_round at max_size s).1).0 ≡ waits)
unfolding ask
read_round-waits at max_size s p q r a f c n =
    let o = copy_cached at (min max_size (s.size - at)) s.cache in
    let t = (ask at max_size s).1 in
    let len = min (max max_size read_ahead) (s.size - at) in
    let asked = open_round at max_size s p r a f ∙ missed at max_size s o false c n in
    let there =
      covers-append s.pending (next_request at max_size s) at
        (covered at len (to_qint32 len) (small_length len (omega arith)) (omega arith)) in
    (
      ap (λ (x : Round × Source). x.0) asked,
      ap (λ (x : Round × Source). (read_round at max_size x.1).0) asked
          ∙ ap (λ (x : Round × Source). x.0)
              (open_round at max_size t p r a f ∙ missed at max_size t o true c there),
    )
