-- ===== src/Downloads/HttpDownload/Integrity/Asked.antt =====
-- What the replies of a download bring, against what was asked for: httpdownload.cpp, spawnSegment and
-- the calls that lead to it.
use batorrent.Base.{
  ==_iff, Bool, Bool-cases, List, Option, [], ap, arith, get_elem?, get_elem?-set_ne, if_cases,
  if◌then◌else◌, inl, inr, leb_ℤ, map, none, pos, pos_part, refl, set, some, subst, suc, sym, true,
  zero, ℕ, ℤ, ◌+ℤ◌, ◌+◌, ◌<◌, ◌==◌, ◌∙◌, ◌∷◌, ◌≡◌, ◌≢◌, ◌≤◌,
}
use mathlib.Core.Option.{some-injective}
use batorrent.Downloads.HttpDownload.Types.{Segment, Request, HttpDownload}
use batorrent.Downloads.HttpDownload.{drop_reply}

-- Where a request asks the server to begin: at 0 if it has no Range header.
abbrev pub begins_at : Option (ℤ × ℤ) → ℕ
begins_at none = 0
begins_at (some (from, to)) = pos_part from

-- Where the request of reply `h` asks to begin.
abbrev pub asked_from : ℕ → List Request → ℕ
asked_from h [] = 0
asked_from h (r ∷ rs) = if r.handle == h then begins_at r.range else asked_from h rs

-- `sent h` is how much reply `h` has brought so far. A segment that waits for a reply goes on where
-- that reply does.
pub record Placed (ranged : Bool) (sent : ℕ → ℕ) (next : ℕ) (rs : List Request) (s : Segment)
    : Type 0 where
  pub ranged_is : ranged ≡ true
  pub ends : leb_ℤ (pos 0) s.range.end ≡ true
  pub first : ℕ
  pub count : ℕ
  pub at : s.range.start ≡ pos first
  pub got : s.received ≡ pos count
  pub waits : (h : ℕ) → s.reply ≡ some h → (h < next) × (first + count ≡ asked_from h rs + sent h)

-- `sent i h` is what reply `h` has brought to segment `i`.
pub record Linked (sent : ℕ → ℕ → ℕ) (ranged : Bool) (next : ℕ) (rs : List Request)
    (ss : List Segment) : Type 0 where
  pub unused : (i h : ℕ) → next ≤ h → sent i h ≡ 0
  pub placed : (i : ℕ) (s : Segment) → get_elem? ss i ≡ some s → Placed ranged (sent i) next rs s

abbrev pub IsLinked : (ℕ → ℕ → ℕ) → HttpDownload → Type 0
IsLinked sent d = Linked sent d.accept_ranges d.next_reply d.requests d.segments

pub unwaited :
    {a : Bool} {f g : ℕ → ℕ} {k l : ℕ} {rs qs : List Request} (s : Segment)
    → Placed a f k rs s
    → Placed a g l qs (record s { reply = none })
unwaited s p = record {
  ranged_is = p.ranged_is;
  ends = p.ends;
  first = p.first;
  count = p.count;
  at = p.at;
  got = p.got;
  waits = λ h e. cc;
}

drop_at :
    (ss : List Segment) (i : ℕ) (s : Segment)
    → get_elem? (map drop_reply ss) i ≡ some s
    → (t : Segment) × (get_elem? ss i ≡ some t) × (drop_reply t ≡ s)
drop_at [] i s e = cc
drop_at (t ∷ ss) zero s e = (t, refl, some-injective _ _ e)
drop_at (t ∷ ss) (suc i) s e = drop_at ss i s e

pub dropped :
    {sent more : ℕ → ℕ → ℕ} {a : Bool} {k l : ℕ} {rs qs : List Request} (ss : List Segment)
    → ((i h : ℕ) → l ≤ h → more i h ≡ 0)
    → Linked sent a k rs ss
    → Linked more a l qs (map drop_reply ss)
dropped {sent} {more} {a} {k} {l} {rs} {qs} ss u d = record {
  unused = u;
  placed = λ i s e.
      let (t, there, same) = drop_at ss i s e in
      subst (Placed a (more i) l qs) same (unwaited t (d.placed i t there));
}

set_there :
    (ss : List Segment) (i : ℕ) (s v : Segment)
    → get_elem? ss i ≡ some s
    → get_elem? (set ss i v) i ≡ some v
set_there [] i s v e = cc
set_there (t ∷ ss) zero s v e = refl
set_there (t ∷ ss) (suc i) s v e = set_there ss i s v e

pub resent :
    {f g : ℕ → ℕ} {a : Bool} {k : ℕ} {rs : List Request} {s : Segment}
    → ((h : ℕ) → g h ≡ f h)
    → Placed a f k rs s
    → Placed a g k rs s
resent {rs = rs} e p = record {
  ranged_is = p.ranged_is;
  ends = p.ends;
  first = p.first;
  count = p.count;
  at = p.at;
  got = p.got;
  waits = λ h w. ((p.waits h w).0, (p.waits h w).1 ∙ ap (λ x. asked_from h rs + x) (sym (e h)));
}

-- One segment is rewritten, and only its replies have brought more.
pub rewritten_more :
    {sent more : ℕ → ℕ → ℕ} {a : Bool} {k : ℕ} {rs : List Request} (ss : List Segment) (i : ℕ)
    (s v : Segment)
    → get_elem? ss i ≡ some s
    → ((j h : ℕ) → i ≢ j → more j h ≡ sent j h)
    → ((j h : ℕ) → k ≤ h → more j h ≡ 0)
    → Placed a (more i) k rs v
    → Linked sent a k rs ss
    → Linked more a k rs (set ss i v)
rewritten_more {sent} {more} {a} {k} {rs} ss i s v e others u p d = record {
  unused = u;
  placed = λ j t there. elim (Bool-cases (i == j)) [
    | inl q ↦
        let same : i ≡ j = (==_iff i j).0 q in
        let here : get_elem? (set ss i v) i ≡ some v = set_there ss i s v e in
        let eq : some v ≡ some t =
          sym here ∙ subst (λ m. get_elem? (set ss i v) m ≡ some t) (sym same) there in
        subst (λ m. Placed a (more m) k rs t) same
          (subst (Placed a (more i) k rs) (some-injective v t eq) p)
    | inr q ↦
        let other : i ≢ j = λ e. let both = sym q ∙ (==_iff i j).1 e in cc in
        resent (λ h. others j h other) (d.placed j t (sym (get_elem?-set_ne ss v other) ∙ there))
  ];
}

pub rewritten :
    {sent : ℕ → ℕ → ℕ} {a : Bool} {k : ℕ} {rs : List Request} (ss : List Segment) (i : ℕ)
    (s v : Segment)
    → get_elem? ss i ≡ some s
    → Placed a (sent i) k rs v
    → Linked sent a k rs ss
    → Linked sent a k rs (set ss i v)
rewritten ss i s v e p d = rewritten_more ss i s v e (λ j h o. refl) d.unused p d

-- One more request leaves what the others ask for.
pub asked_more :
    {sent : ℕ → ℕ → ℕ} {a : Bool} {k : ℕ} {rs : List Request} {ss : List Segment} (r : Request)
    → r.handle ≡ k
    → Linked sent a k rs ss
    → Linked sent a (suc k) (r ∷ rs) ss
asked_more {sent} {a} {k} {rs} r e d = record {
  unused = λ i h le. d.unused i h (omega arith);
  placed = λ i s there.
      let p = d.placed i s there in
      record {
        ranged_is = p.ranged_is;
        ends = p.ends;
        first = p.first;
        count = p.count;
        at = p.at;
        got = p.got;
        waits = λ h w.
            let (lt, place) = p.waits h w in
            (
              omega arith,
              place
                  ∙ ap (λ x. x + sent i h)
                      (if_cases (λ x. asked_from h rs ≡ x) (r.handle == h)
                        (λ q. absurd (omega (arith, (==_iff r.handle h).0 q, e, lt))) (λ _. refl)),
            );
      };
}

pub add_pos : (a b : ℕ) → pos a +ℤ pos b ≡ pos (a + b)
unfolding ◌+ℤ◌
add_pos a b = ground arith

pub spawned :
    (sent : ℕ → ℕ → ℕ) (i : ℕ) (s : Segment) (d : HttpDownload)
    → Placed d.accept_ranges (sent i) d.next_reply d.requests s
    → sent i d.next_reply ≡ 0
    → (w : Option (ℤ × ℤ)) → w ≡ some (s.range.start +ℤ s.received, s.range.end)
    → Placed d.accept_ranges
        (sent i)
        (suc d.next_reply)
        (record { handle = d.next_reply; segment = some i; range = w } ∷ d.requests)
        (record s { reply = some d.next_reply })
spawned sent i s d p z w e = record {
  ranged_is = p.ranged_is;
  ends = p.ends;
  first = p.first;
  count = p.count;
  at = p.at;
  got = p.got;
  waits = λ h q.
      let same : d.next_reply ≡ h = some-injective _ _ q in
      subst
        (λ m.
          (m < suc d.next_reply)
          × (p.first + p.count
              ≡ asked_from m
                  (record { handle = d.next_reply; segment = some i; range = w } ∷ d.requests)
                + sent i m))
        same
        (
          omega arith,
          rw (e, p.at, p.got, add_pos, z, (==_iff d.next_reply d.next_reply).1 refl) (omega arith),
        );
}
