-- ===== src/Discovery/TrackerScrape/Finish.antt =====
-- The scraper of src/services/discovery/trackerscrape.cpp says once that it is finished.
use batorrent.Base.{
  Bool, Bool-cases, List, Option, Text, [], ap, arith, eq_ℤ, false, if_cases, if◌then◌else◌, inl,
  inr, length, none, pos, refl, some, subst, suc, sym, true, zero, ℕ, ◌+◌, ◌-ℤ◌, ◌==◌, ◌∙◌, ◌∷◌,
  ◌≡◌,
}
use batorrent.Discovery.TrackerScrape.{Exchange, ask_tracker, finish, on_host_found, on_datagram}
use batorrent.Discovery.TrackerScrape.Scraper.{
  Scraper, Event, looked_up, datagram, timeout, handle, HashesByTracker, chosen_trackers,
  for_hashes, ask_all, scrape, done_one, at_tracker, ends_at, scraper_step, on_deferred_finish,
}

-- The exchanges that are not over.
abbrev pub undone : List (Text × Exchange) → ℕ
undone [] = 0
undone ((t, x) ∷ xs) = if x.is_done then undone xs else suc (undone xs)

abbrev pub one_if : Bool → ℕ
one_if b = if b then 1 else 0

undone-ask_all : (m : HashesByTracker) (ts : List Text) → undone (ask_all m ts) ≡ length ts
unfolding ask_tracker
undone-ask_all m [] = refl
undone-ask_all m (t ∷ ts) = ap suc (undone-ask_all m ts)

finish-IsDone : (s : Exchange) → s.is_done ≡ true → (finish s).is_done ≡ true
unfolding finish
finish-IsDone s d = if_cases (λ (x : Exchange). x.is_done ≡ true) s.is_done (λ _. d) (λ _. refl)

-- A scraper's finished() was emitted, or the timer of 0 ms will, exactly if no exchange is left.
abbrev Inv : Scraper → Type 0
Inv s =
    let n = undone s.exchanges in
    (s.pending ≡ pos n) × (s.finishes + one_if s.is_deferred ≡ one_if (n == 0))

one_less : (n : ℕ) → pos (suc n) -ℤ pos 1 ≡ pos n
unfolding ◌-ℤ◌
one_less n = ground arith

counts_zero :
    (f n d : ℕ) → f + d ≡ 0 → (if eq_ℤ (pos n) (pos 0) then suc f else f) + d ≡ one_if (n == 0)
counts_zero f n d h = ground arith

done_one-Inv :
    (s : Scraper)
    → s.pending ≡ pos (suc (undone s.exchanges))
    → s.finishes + one_if s.is_deferred ≡ 0
    → Inv (done_one s)
unfolding done_one
done_one-Inv s p f =
    let n = undone s.exchanges in
    let left = ap (λ z. z -ℤ pos 1) p ∙ one_less n in
    (
      left,
      subst
          (λ z.
            (if eq_ℤ z (pos 0) then suc s.finishes else s.finishes) + one_if s.is_deferred
            ≡ one_if (n == 0))
          (sym left) (counts_zero s.finishes n (one_if s.is_deferred) f),
    )

not_yet : (f n m : ℕ) → m + 1 ≡ n → f ≡ one_if (n == 0) → f ≡ 0
not_yet f n m e h = ground arith

emitted : (f : ℕ) (b : Bool) → b ≡ true → suc f + one_if false ≡ f + one_if b
emitted f b h = ground arith

nothing_yet : (n : ℕ) → 0 + one_if (n == 0) ≡ one_if (n == 0)
nothing_yet n = omega arith

module _ (from_hex : Text → List ℕ) where
  handle-IsDone :
      (e : Event) (s : Exchange) → s.is_done ≡ true → (handle from_hex e s).is_done ≡ true
  unfolding handle on_host_found on_datagram
  handle-IsDone (looked_up has_address is_bound random) s d =
      if_cases (λ (x : Exchange). x.is_done ≡ true) s.is_done (λ _. d)
        (λ n. let both = sym d ∙ n in cc)
  handle-IsDone (datagram reply random) s d =
      if_cases (λ (x : Exchange). x.is_done ≡ true) s.is_done (λ _. d)
        (λ n. let both = sym d ∙ n in cc)
  handle-IsDone timeout s d = finish-IsDone s d

  undone-at_tracker :
      (i : ℕ) (e : Event) (xs : List (Text × Exchange))
      → undone (at_tracker from_hex i e xs) + one_if (ends_at from_hex i e xs) ≡ undone xs
  undone-at_tracker i e [] = omega arith
  undone-at_tracker zero e ((t, x) ∷ xs) = elim (Bool-cases x.is_done) [
    | inl d ↦ let still = handle-IsDone e x d in ground arith
    | inr n ↦ ground arith
  ]
  undone-at_tracker (suc i) e ((t, x) ∷ xs) = let rest = undone-at_tracker i e xs in ground arith

  scraper_step-Inv : (i : ℕ) (e : Event) (s : Scraper) → Inv s → Inv (scraper_step from_hex i e s)
  unfolding scraper_step
  scraper_step-Inv i e s (p, f) =
      let xs = at_tracker from_hex i e s.exchanges in
      let b = ends_at from_hex i e s.exchanges in
      let less : undone xs + one_if b ≡ undone s.exchanges = undone-at_tracker i e s.exchanges in
      if_cases Inv b
        (λ h.
          let one : undone xs + 1 ≡ undone s.exchanges = ground arith in
          done_one-Inv (record s { exchanges = xs }) (p ∙ ap pos (omega arith))
            (not_yet (s.finishes + one_if s.is_deferred) (undone s.exchanges) (undone xs) one f))
        (λ h.
          let same : undone s.exchanges ≡ undone xs = ground arith in
          (p ∙ ap pos same, f ∙ ap (λ n. one_if (n == 0)) same))

  on_deferred_finish-Inv : (s : Scraper) → Inv s → Inv (on_deferred_finish s)
  unfolding on_deferred_finish
  on_deferred_finish-Inv s (p, f) =
      if_cases Inv s.is_deferred (λ d. (p, emitted s.finishes s.is_deferred d ∙ f)) (λ _. (p, f))

  -- What reaches the exchanges, each numbered; none is the timer of 0 ms.
  unfoldable pub run : List (Option (ℕ × Event)) → Scraper → Scraper
  unfolding scraper_step on_deferred_finish
  run [] s = s
  run (none ∷ es) s = run es (on_deferred_finish s)
  run (some (i, e) ∷ es) s = run es (scraper_step from_hex i e s)

  run-Inv : (es : List (Option (ℕ × Event))) (s : Scraper) → Inv s → Inv (run es s)
  unfolding run
  run-Inv [] s i = i
  run-Inv (none ∷ es) s i = run-Inv es (on_deferred_finish s) (on_deferred_finish-Inv s i)
  run-Inv (some (k, e) ∷ es) s i =
      run-Inv es (scraper_step from_hex k e s) (scraper_step-Inv k e s i)

  scrape-Inv : (hs : List (Text × List Text)) → Inv (scrape hs)
  unfolding scrape
  scrape-Inv hs =
      let m = for_hashes hs [] in
      let ts = chosen_trackers m in
      let all = undone-ask_all m ts in
      (ap pos (sym all), nothing_yet (length ts) ∙ ap (λ n. one_if (n == 0)) (sym all))

  -- Whatever reaches the exchanges of a scraper: once no exchange is left, finished() has been emitted
  -- once, or the timer of 0 ms will emit it; before that, it has not been.
  pub finished-Once :
      (hs : List (Text × List Text)) (es : List (Option (ℕ × Event)))
      → (let s = run es (scrape hs) in
          s.finishes + one_if s.is_deferred ≡ one_if (undone s.exchanges == 0))
  finished-Once hs es = (run-Inv es (scrape hs) (scrape-Inv hs)).1
