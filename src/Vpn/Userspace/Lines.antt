-- ===== src/Vpn/Userspace/Lines.antt =====
-- The lines of src/services/vpn/wgtunnel_userspace.cpp: how the pipe cuts them does not matter.
use batorrent.Base.{
  &&-right, Bool, Bool-cases, Text, [], ap, append-nil, append_assoc, arith, codes, elim_both,
  elim_cases, false, if_both, if_cases, inl, inr, is_some, ltb_ℤ, not, pos, refl, sym, text_eq,
  trimmed, true, ℕ, ◌&&◌, ◌++◌, ◌==◌, ◌∙◌, ◌∷◌, ◌≡◌,
}
use batorrent.Vpn.Userspace.{
  Tunnel, HelperEvent, on_event, on_ready, on_forwarded, read_lines, read_events,
}

abbrev with_buf : Text → Tunnel → Tunnel
with_buf b s = record s { buf = b }

abbrev DiffersInBuf : Text → Tunnel → Tunnel → Type 0
DiffersInBuf b t s = t ≡ with_buf b s

abbrev pub SameProc : Tunnel → Tunnel → Type 0
SameProc s t = t.proc ≡ s.proc

on_ready-buf :
    (e : HelperEvent) (b : Text) (s : Tunnel)
    → DiffersInBuf b (on_ready e (with_buf b s)) (on_ready e s)
unfolding on_ready
on_ready-buf e b s = if_both (DiffersInBuf b) (ltb_ℤ (pos 0) e.port && not s.stopping) refl refl

on_forwarded-buf :
    (e : HelperEvent) (b : Text) (s : Tunnel)
    → DiffersInBuf b (on_forwarded e (with_buf b s)) (on_forwarded e s)
unfolding on_forwarded
on_forwarded-buf e b s = if_both (DiffersInBuf b) s.ready refl refl

on_event-buf :
    (e : HelperEvent) (b : Text) (s : Tunnel)
    → DiffersInBuf b (on_event e (with_buf b s)) (on_event e s)
unfolding on_event
on_event-buf e b s =
    let R = DiffersInBuf b in
    if_both R (text_eq e.ev (codes "ready")) (on_ready-buf e b s) (
      if_both R (text_eq e.ev (codes "fwd")) (on_forwarded-buf e b s) (
        if_both R (text_eq e.ev (codes "error")) refl
          (if_both R (text_eq e.ev (codes "stale")) refl refl)))

pub on_event-proc : (e : HelperEvent) (s : Tunnel) → SameProc s (on_event e s)
unfolding on_event on_ready on_forwarded
on_event-proc e s =
    let P = SameProc s in
    if_cases P (text_eq e.ev (codes "ready"))
      (λ _. if_cases P (ltb_ℤ (pos 0) e.port && not s.stopping) (λ _. refl) (λ _. refl))
      (λ _.
        if_cases P (text_eq e.ev (codes "fwd")) (λ _. if_cases P s.ready (λ _. refl) (λ _. refl))
          (λ _.
            if_cases P (text_eq e.ev (codes "error")) (λ _. refl)
              (λ _. if_cases P (text_eq e.ev (codes "stale")) (λ _. refl) (λ _. refl))))

-- A text without a line break.
abbrev one_line : Text → Bool
one_line [] = true
one_line (c ∷ cs) = not (c == 10) && one_line cs

one_line-append :
    (l : Text) (c : ℕ) → one_line l ≡ true → (c == 10) ≡ false → one_line (l ++ c ∷ []) ≡ true
one_line-append [] c h n = ground arith
one_line-append (d ∷ l) c h n =
    let rest = one_line-append l c (&&-right (not (d == 10)) (one_line l) h) n in ground arith

module _ (event_of : Text → HelperEvent) where
  read_lines-buf :
      (line cs b : Text) (s : Tunnel)
      → read_lines event_of line cs (with_buf b s) ≡ read_lines event_of line cs s
  unfolding read_lines
  read_lines-buf line [] b s = refl
  read_lines-buf line (c ∷ cs) b s =
      let e = event_of (trimmed line) in
      elim_both (λ t u. t ≡ u) (c == 10)
        (ap (read_lines event_of [] cs) (on_event-buf e b s)
          ∙ read_lines-buf [] cs b (on_event e s))
        (read_lines-buf (line ++ c ∷ []) cs b s)

  -- Reading on from where the first part stopped.
  read_lines-append :
      (line xs ys : Text) (s : Tunnel)
      → (let t = read_lines event_of line xs s in
          read_lines event_of line (xs ++ ys) s ≡ read_lines event_of t.buf ys t)
  unfolding read_lines
  read_lines-append line [] ys s = sym (read_lines-buf line ys line s)
  read_lines-append line (c ∷ xs) ys s =
      elim_both (λ u t. u ≡ read_lines event_of t.buf ys t) (c == 10)
        (read_lines-append [] xs ys (on_event (event_of (trimmed line)) s))
        (read_lines-append (line ++ c ∷ []) xs ys s)

  read_lines-one_line :
      (line cs : Text) (s : Tunnel)
      → one_line line ≡ true
      → one_line ((read_lines event_of line cs s).buf) ≡ true
  unfolding read_lines
  read_lines-one_line line [] s h = h
  read_lines-one_line line (c ∷ cs) s h =
      elim_cases (λ (t : Tunnel). one_line t.buf ≡ true) (c == 10)
        (λ _. read_lines-one_line [] cs (on_event (event_of (trimmed line)) s) refl)
        (λ n. read_lines-one_line (line ++ c ∷ []) cs s (one_line-append line c h n))

  -- A text without a line break only makes the line longer.
  read_lines-line :
      (line l ys : Text) (s : Tunnel)
      → one_line l ≡ true
      → read_lines event_of line (l ++ ys) s ≡ read_lines event_of (line ++ l) ys s
  unfolding read_lines
  read_lines-line line [] ys s h = sym (ap (λ k. read_lines event_of k ys s) (append-nil line))
  read_lines-line line (c ∷ l) ys s h =
      let longer =
        read_lines-line (line ++ c ∷ []) l ys s (&&-right (not (c == 10)) (one_line l) h) in
      let whole = read_lines event_of (line ++ c ∷ l) ys s in
      elim_cases (λ t. t ≡ whole) (c == 10) (λ e. ground arith)
        (λ e. longer ∙ ap (λ k. read_lines event_of k ys s) (append_assoc line (c ∷ []) l))

  pub read_lines-proc : (line cs : Text) (s : Tunnel) → SameProc s (read_lines event_of line cs s)
  unfolding read_lines
  read_lines-proc line [] s = refl
  read_lines-proc line (c ∷ cs) s =
      let e = event_of (trimmed line) in
      elim_cases (SameProc s) (c == 10)
        (λ _. read_lines-proc [] cs (on_event e s) ∙ on_event-proc e s)
        (λ _. read_lines-proc (line ++ c ∷ []) cs s)

  read_events-running :
      (out : Text) (s : Tunnel)
      → is_some s.proc ≡ true
      → read_events event_of out s ≡ read_lines event_of [] (s.buf ++ out) s
  unfolding read_events
  read_events-running out s h = rw h

  read_events-stopped :
      (out : Text) (s : Tunnel) → is_some s.proc ≡ false → read_events event_of out s ≡ s
  unfolding read_events
  read_events-stopped out s h = rw h

  -- What the helper writes is understood the same whether it is read at once or in two pieces that
  -- are cut anywhere, also inside a line.
  pub read_events-append :
      (a b : Text) (s : Tunnel)
      → read_events event_of (a ++ b) s ≡ read_events event_of b (read_events event_of a s)
  read_events-append a b s = elim (Bool-cases (is_some s.proc)) [
    | inr h ↦
        read_events-stopped (a ++ b) s h
        ∙ sym (ap (read_events event_of b) (read_events-stopped a s h) ∙ read_events-stopped b s h)
    | inl h ↦
        let t = read_lines event_of [] (s.buf ++ a) s in
        let still = ap is_some (read_lines-proc [] (s.buf ++ a) s) ∙ h in
        read_events-running (a ++ b) s h
        ∙ ap (λ x. read_lines event_of [] x s) (sym (append_assoc s.buf a b))
        ∙ read_lines-append [] (s.buf ++ a) b s
        ∙ sym (read_lines-line [] t.buf b t (read_lines-one_line [] (s.buf ++ a) s refl))
        ∙ sym (read_events-running b t still)
        ∙ ap (read_events event_of b) (sym (read_events-running a s h))
  ]
