-- ===== src/Ipc/RemoteSource/Reads.antt =====
-- What a reader gets, and what the cache holds.
use batorrent.Base.{
  All, Bool, List, Option, [], ap, arith, drop, false, if_cases, if◌then◌else◌, inr, leb, length,
  length-drop, length-take, ltb, min, none, refl, some, subst, suc, take, true, zero, ℕ, ℤ, ◌&&◌,
  ◌++◌, ◌+◌, ◌-◌, ◌<◌, ◌==◌, ◌||◌, ◌∙◌, ◌∷◌, ◌≡◌, ◌≤◌, ◌⊎◌,
}
use mathlib.Core.Option.{some-injective}
use batorrent.Ipc.Bytes.{AreAt, get_or-take, get_or-drop}
use batorrent.Ipc.RemoteSource.{
  Chunk, Source, remote_source, copy_cached, pending_covers, Round, returns, refuses, waits, ask,
  read_missing, read_round, evict, max_cache_bytes, first_bytes,
}

abbrev pub total_bytes : List Chunk → ℕ
total_bytes [] = 0
total_bytes (c ∷ cs) = length c.bytes + total_bytes cs

pub total_bytes-append :
    (cs ds : List Chunk) → total_bytes (cs ++ ds) ≡ total_bytes cs + total_bytes ds
total_bytes-append [] ds = omega arith
total_bytes-append (c ∷ cs) ds = omega (arith, total_bytes-append cs ds)

-- The cache is counted right, and it is small or has one chunk.
abbrev pub IsSmall : List Chunk × ℕ → Type 0
IsSmall r = (r.1 ≡ total_bytes r.0) × ((r.1 ≤ max_cache_bytes) ⊎ (length r.0 ≤ 1))

pub evict-IsSmall :
    (n : ℕ) (cs : List Chunk) (t : ℕ) → length cs ≤ n → t ≡ total_bytes cs → IsSmall (evict n cs t)
unfolding evict
evict-IsSmall zero [] t h e = (e, inr (omega arith))
evict-IsSmall zero (c ∷ cs) t h e = absurd (omega arith)
evict-IsSmall (suc n) [] t h e =
    if_cases IsSmall (ltb max_cache_bytes t && false) {x = evict n [] (t - 0)} {y = ([], t)}
      (λ q. absurd (never (ltb max_cache_bytes t) q)) (λ _. (e, inr (omega arith)))
  where
    never : (a : Bool) → a && false ≡ true → ⊥
    never a h = ground arith
evict-IsSmall (suc n) (c ∷ cs) t h e =
    if_cases IsSmall (ltb max_cache_bytes t && ltb 1 (suc (length cs)))
      {x = evict n cs (t - length c.bytes)} {y = (c ∷ cs, t)}
      (λ _. evict-IsSmall n cs (t - length c.bytes) (omega arith) (omega (arith, e)))
      (λ q. (e, stops t (length cs) q))
  where
    stops :
        (t l : ℕ)
        → ltb max_cache_bytes t && ltb 1 (suc l) ≡ false
        → (t ≤ max_cache_bytes) ⊎ (suc l ≤ 1)
    stops t l h = ground arith

pub evict-All :
    (P : Chunk → Type 0) (n : ℕ) (cs : List Chunk) (t : ℕ) → All P cs → All P (evict n cs t).0
unfolding evict
evict-All P zero cs t a = a
evict-All P (suc n) cs t a =
    if_cases (λ (r : List Chunk × ℕ). All P r.0) (ltb max_cache_bytes t && ltb 1 (length cs))
      {x = evict n (drop 1 cs) (t - first_bytes cs)} {y = (cs, t)}
      (λ _. evict-All P n (drop 1 cs) (t - first_bytes cs) (All-rest cs a)) (λ _. a)
  where
    All-rest : (cs : List Chunk) → All P cs → All P (drop 1 cs)
    All-rest [] a = a
    All-rest (c ∷ cs) a = a.1

module _ (source : ℕ → ℕ) where
  -- A chunk of the source, within its `n` bytes.
  abbrev pub IsPart : ℕ → Chunk → Type 0
  IsPart n c =
      AreAt source c.offset c.bytes × (c.offset + length c.bytes ≤ n) × (0 < length c.bytes)

  abbrev pub Inv : Source → Type 0
  Inv s = All (IsPart s.size) s.cache × IsSmall (s.cache, s.cache_bytes)

  -- What a read may return: bytes of the source, from the place that was asked for, no more than
  -- asked for, and some unless the end is reached or none are wanted.
  abbrev pub IsRight : ℕ → ℕ → ℕ → List ℕ → Type 0
  IsRight at max_size n bytes =
      AreAt source at bytes
      × (length bytes ≤ max_size)
      × (0 < length bytes → at + length bytes ≤ n)
      × (0 < max_size → at < n → 0 < length bytes)

  copied :
      (at max_size n : ℕ) (c : Chunk)
      → IsPart n c
      → ltb at c.offset || leb (c.offset + length c.bytes) at ≡ false
      → IsRight at max_size n
          (take (min max_size (c.offset + length c.bytes - at)) (drop (at - c.offset) c.bytes))
  copied at max_size n c (a, f, p) h =
      let d = drop (at - c.offset) c.bytes in
      let m = min max_size (c.offset + length c.bytes - at) in
      let from : c.offset ≤ at = below at c.offset (leb (c.offset + length c.bytes) at) h in
      let until : at < c.offset + length c.bytes =
        above at (c.offset + length c.bytes) (ltb at c.offset) h in
      let len = length-take m d in
      let dlen = length-drop (at - c.offset) c.bytes in
      (
        λ k q.
            get_or-take m d k (omega (arith, q, len))
            ∙ get_or-drop (at - c.offset) c.bytes k (at - c.offset + k) refl
            ∙ a (at - c.offset + k) (omega (arith, q, len, dlen))
            ∙ ap source (omega arith),
        omega (arith, len),
        λ q. omega (arith, len, dlen, f),
        λ q r. omega (arith, len, dlen),
      )
    where
      below : (a b : ℕ) (c : Bool) → ltb a b || c ≡ false → b ≤ a
      below a b c h = ground arith

      above : (a b : ℕ) (c : Bool) → c || leb b a ≡ false → a < b
      above a b c h = ground arith

  copy_cached-IsRight :
      (at max_size n : ℕ) (cs : List Chunk) (bytes : List ℕ)
      → All (IsPart n) cs
      → copy_cached at max_size cs ≡ some bytes
      → IsRight at max_size n bytes
  unfolding copy_cached
  copy_cached-IsRight at max_size n [] bytes a e = cc
  copy_cached-IsRight at max_size n (c ∷ cs) bytes a e =
      if_cases (λ (o : Option (List ℕ)). o ≡ some bytes → IsRight at max_size n bytes)
        (ltb at c.offset || leb (c.offset + length c.bytes) at) {x = copy_cached at max_size cs}
        {y = some
          (take (min max_size (c.offset + length c.bytes - at)) (drop (at - c.offset) c.bytes))}
        (λ _ e. copy_cached-IsRight at max_size n cs bytes a.1 e)
        (λ h e.
          subst (IsRight at max_size n) (some-injective _ bytes e) (copied at max_size n c a.0 h))
        e

  -- What a round may come to.
  abbrev pub RoundIsRight : ℕ → ℕ → ℕ → Round → Type 0
  RoundIsRight at max_size n (returns bytes) = IsRight at max_size n bytes
  RoundIsRight at max_size n _ = Unit

  read_missing-IsRight :
      (at max_size : ℕ) (s : Source) (o : Option (List ℕ))
      → ((bytes : List ℕ) → o ≡ some bytes → IsRight at max_size s.size bytes)
      → RoundIsRight at max_size s.size (read_missing at max_size s o).0
  unfolding read_missing ask
  read_missing-IsRight at max_size s (some bytes) h = h bytes refl
  read_missing-IsRight at max_size s none h =
      if_cases (λ (r : Round × Source). RoundIsRight at max_size s.size r.0)
        (pending_covers at s.pending) {x = (waits, s)} {y = ask at max_size s} (λ _. tt) (λ _. tt)

  -- Whatever a round of a read returns are bytes of the source, from the place that was asked for,
  -- no more than asked for and none past the end, and none at all only at the end or when none are
  -- wanted; this holds for a cache of bytes of the source.
  pub read_round-IsRight :
      (at max_size : ℕ) (s : Source)
      → Inv s
      → RoundIsRight at max_size s.size (read_round at max_size s).0
  unfolding read_round
  read_round-IsRight at max_size s v =
      let m = min max_size (s.size - at) in
      if_cases Right (max_size == 0 || leb s.size at) {x = (returns [], s)}
        {y = if s.aborted || s.has_failed
          then (refuses, s)
          else read_missing at max_size s (copy_cached at m s.cache)}
        (λ h. (
          λ k q. absurd (omega arith),
          omega arith,
          λ q. absurd (omega arith),
          λ p q. absurd (ended at s.size max_size h p q),
        ))
        (λ h.
          if_cases Right (s.aborted || s.has_failed) {x = (refuses, s)}
            {y = read_missing at max_size s (copy_cached at m s.cache)} (λ _. tt)
            (λ _. read_missing-IsRight at max_size s (copy_cached at m s.cache) (λ bytes e.
              let (r, l, f, p) = copy_cached-IsRight at m s.size s.cache bytes v.0 e in
              (r, omega (arith, l), f, λ a b. p (omega arith) b))))
    where
      Right : Round × Source → Type 0
      Right r = RoundIsRight at max_size s.size r.0

      ended : (at n m : ℕ) → m == 0 || leb n at ≡ true → 0 < m → at < n → ⊥
      ended at n m h p q = ground arith

  pub remote_source-Inv : (size : ℤ) → Inv (remote_source size)
  unfolding remote_source
  remote_source-Inv size = (tt, (refl, inr (omega arith)))

  pub read_round-Inv : (at max_size : ℕ) (s : Source) → Inv s → Inv (read_round at max_size s).1
  unfolding read_round read_missing ask
  read_round-Inv at max_size s v =
      let m = min max_size (s.size - at) in
      if_cases After (max_size == 0 || leb s.size at) {x = (returns [], s)}
        {y = if s.aborted || s.has_failed
          then (refuses, s)
          else read_missing at max_size s (copy_cached at m s.cache)}
        (λ _. v)
        (λ _.
          if_cases After (s.aborted || s.has_failed) {x = (refuses, s)}
            {y = read_missing at max_size s (copy_cached at m s.cache)} (λ _. v)
            (λ _. missed (copy_cached at m s.cache)))
    where
      After : Round × Source → Type 0
      After r = Inv r.1

      missed : (o : Option (List ℕ)) → After (read_missing at max_size s o)
      missed (some bytes) = v
      missed none =
          if_cases After (pending_covers at s.pending) {x = (waits, s)} {y = ask at max_size s}
            (λ _. v) (λ _. v)
