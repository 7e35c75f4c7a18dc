-- ===== src/Security/MediaSniff/Lure.antt =====
-- The walk over the objects of an ASF file, and the bounds of what is read.
use batorrent.Base.{
  Bool, List, Option, ap, arith, false, get_or, if_cases, if◌then◌else◌, is_some, length, ltb, min,
  none, refl, some, subst, suc, sym, true, zero, ℕ, ◌*◌, ◌+◌, ◌-◌, ◌<◌, ◌||◌, ◌↔◌, ◌∙◌, ◌≡◌, ◌≤◌,
}
use mathlib.Core.Option.{some-injective}
use batorrent.Security.MediaSniff.{
  le32, le64, lure_at, asf_next, asf_loop, asf_has_lure, has_at, asf_header, asf_walk,
}

pub le32-some : (b : List ℕ) (off : ℕ) → off + 4 ≤ length b → (v : ℕ) × (le32 b off ≡ some v)
unfolding le32
le32-some b off h = (
  get_or b off 0
      + get_or b (off + 1) 0 * 256
      + get_or b (off + 2) 0 * 65536
      + get_or b (off + 3) 0 * 16777216,
  rw (enough (length b) (off + 4) h) refl,
)
  where
    enough : (l e : ℕ) → e ≤ l → ltb l e ≡ false
    enough l e h = ground arith

pub le64-some : (b : List ℕ) (off : ℕ) → off + 8 ≤ length b → (v : ℕ) × (le64 b off ≡ some v)
unfolding le64
le64-some b off h =
    let (low, e) = le32-some b off (omega arith) in
    let (high, f) = le32-some b (off + 4) (omega arith) in (low + high * 4294967296, rw (e, f) refl)

module _ (b : List ℕ) (end : ℕ) where
  -- An object at `x` is followed by others up to the one at `y`, none of them a lure before that.
  pub data Leads : ℕ → ℕ → Type 0 where
    here : (x : ℕ) → Leads x x
    step :
        (x y size : ℕ)
        → x + 24 ≤ end
        → lure_at b x ≡ false
        → le64 b (x + 16) ≡ some size
        → 24 ≤ size
        → size ≤ end - x
        → Leads (x + size) y
        → Leads x y

  -- An object that is reached from `x`, is there with its head, and is a lure.
  pub record LureFrom (x : ℕ) : Type 0 where
    pub place : ℕ
    pub led : Leads x place
    pub fits : place + 24 ≤ end
    pub lures : lure_at b place ≡ true

  asf_next-found :
      (go : ℕ → Option Bool) (x : ℕ) (o : Option ℕ)
      → asf_next go end x o ≡ some true
      → (size : ℕ) × (o ≡ some size) × (24 ≤ size) × (size ≤ end - x) × (go (x + size) ≡ some true)
  unfolding asf_next
  asf_next-found go x none h = cc
  asf_next-found go x (some size) h =
      if_cases
        (λ (r : Option Bool).
          r ≡ some true
          → (s : ℕ) × (some size ≡ some s) × (24 ≤ s) × (s ≤ end - x) × (go (x + s) ≡ some true))
        (ltb size 24 || ltb (end - x) size) {x = some false} {y = go (x + size)} (λ _ e. cc)
        (λ q e. (size, refl, (usable size (end - x) q).0, (usable size (end - x) q).1, e)) h
    where
      usable : (s l : ℕ) → ltb s 24 || ltb l s ≡ false → (24 ≤ s) × (s ≤ l)
      usable s l h = ground arith

  pub asf_loop_sound : (n x : ℕ) → asf_loop n b end x ≡ some true → LureFrom x
  unfolding asf_loop
  asf_loop_sound zero x h = cc
  asf_loop_sound (suc n) x h =
      let rest = asf_next (asf_loop n b end) end x (le64 b (x + 16)) in
      if_cases Found (ltb end (x + 24)) {x = some false}
        {y = if lure_at b x then some true else rest} (λ _ e. cc)
        (λ q.
          if_cases Found (lure_at b x) {x = some true} {y = rest}
            (λ l _. record { place = x; led = here x; fits = not_less end (x + 24) q; lures = l })
            (λ l e.
              let (size, e, s, f, r) = asf_next-found (asf_loop n b end) x (le64 b (x + 16)) e in
              let v = asf_loop_sound n (x + size) r in
              record {
                place = v.place;
                led = step x v.place size (not_less end (x + 24) q) l e s f v.led;
                fits = v.fits;
                lures = v.lures;
              }))
        h
    where
      Found : Option Bool → Type 0
      Found r = r ≡ some true → LureFrom x

      not_less : (x y : ℕ) → ltb x y ≡ false → y ≤ x
      not_less x y h = ground arith

  not_above : (x y : ℕ) → y ≤ x → ltb x y ≡ false
  not_above x y h = ground arith

  in_range : (s l : ℕ) → 24 ≤ s → s ≤ l → ltb s 24 || ltb l s ≡ false
  in_range s l h k = ground arith

  asf_next-some :
      (go : ℕ → Option Bool) (x : ℕ) (o : Option ℕ) (size : ℕ)
      → o ≡ some size
      → ltb size 24 || ltb (end - x) size ≡ false
      → asf_next go end x o ≡ go (x + size)
  unfolding asf_next
  asf_next-some go x none size e h = cc
  asf_next-some go x (some s) size e h =
      let same = some-injective s size e in
      subst (λ t. (if ltb t 24 || ltb (end - x) t then some false else go (x + t)) ≡ go (x + size))
        (sym same) (rw h refl)

  pub asf_loop_complete :
      (n x y : ℕ)
      → end < x + n
      → Leads x y
      → y + 24 ≤ end
      → lure_at b y ≡ true
      → asf_loop n b end x ≡ some true
  unfolding asf_loop
  asf_loop_complete zero x y g (here _) f l = absurd (omega arith)
  asf_loop_complete zero x y g (step _ _ size a c e s t r) f l = absurd (omega arith)
  asf_loop_complete (suc n) x y g (here _) f l = rw (not_above end (x + 24) f, l) refl
  asf_loop_complete (suc n) x y g (step _ _ size a c e s t r) f l =
      rw (not_above end (x + 24) a, c)
        (asf_next-some (asf_loop n b end) x (le64 b (x + 16)) size e (in_range size (end - x) s t)
          ∙ asf_loop_complete n (x + size) y (omega arith) r f l)

  -- Within the bytes there are, no word is read past the end.
  asf_next-there :
      (go : ℕ → Option Bool) (x size : ℕ) (o : Option ℕ)
      → o ≡ some size
      → is_some (go (x + size)) ≡ true
      → is_some (asf_next go end x o) ≡ true
  unfolding asf_next
  asf_next-there go x size none e h = cc
  asf_next-there go x size (some s) e h =
      if_cases (λ (r : Option Bool). is_some r ≡ true) (ltb s 24 || ltb (end - x) s)
        {x = some false} {y = go (x + s)} (λ _. refl)
        (λ _. subst (λ t. is_some (go (x + t)) ≡ true) (sym (some-injective s size e)) h)

  pub asf_loop-there : end ≤ length b → (n x : ℕ) → is_some (asf_loop n b end x) ≡ true
  unfolding asf_loop
  asf_loop-there h zero x = refl
  asf_loop-there h (suc n) x =
      let rest = asf_next (asf_loop n b end) end x (le64 b (x + 16)) in
      if_cases There (ltb end (x + 24)) {x = some false}
        {y = if lure_at b x then some true else rest} (λ _. refl)
        (λ q.
          if_cases There (lure_at b x) {x = some true} {y = rest} (λ _. refl)
            (λ _.
              let (size, e) = le64-some b (x + 16) (room (length b) end x h q) in
              asf_next-there (asf_loop n b end) x size (le64 b (x + 16)) e
                (asf_loop-there h n (x + size))))
    where
      There : Option Bool → Type 0
      There r = is_some r ≡ true

      room : (l e x : ℕ) → e ≤ l → ltb e (x + 24) ≡ false → x + 16 + 8 ≤ l
      room l e x h q = ground arith

-- An ASF file is found to have a lure exactly if, following the sizes of its objects from byte 30 on,
-- one comes to an object of one of the three kinds, with its head within the header's size and the
-- bytes that are there; this holds for a file that starts as an ASF file does and has 30 bytes.
pub asf_has_lure_iff :
    (b : List ℕ) (size : ℕ)
    → has_at b 0 asf_header ≡ true
    → 30 ≤ length b
    → le64 b 16 ≡ some size
    → (asf_has_lure b ≡ some true) ↔ LureFrom b (min size (length b)) 30
unfolding asf_has_lure
asf_has_lure_iff b size h l e =
    let end = min size (length b) in
    let walk : asf_has_lure b ≡ asf_loop (length b) b end 30 =
      rw (h, long_enough (length b) l) (ap (asf_walk b) e) in
    (
      λ q. asf_loop_sound b end (length b) 30 (sym walk ∙ q),
      λ v. walk ∙ asf_loop_complete b end (length b) 30 v.place (omega arith) v.led v.fits v.lures,
    )
  where
    long_enough : (n : ℕ) → 30 ≤ n → ltb n 30 ≡ false
    long_enough n h = ground arith
