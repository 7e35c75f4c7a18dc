-- ===== src/Vpn/Wiring/Bound.antt =====
-- The interface that the session is bound to, for a tunnel that is an interface.
use batorrent.Base.{Bool, Option, Text, false, if_cases, is_some, none, refl, some, true, ◌≡◌}
use batorrent.Vpn.Wiring.{Wired, or_else, bound_up, bound_down, restore_interface, before_vpn, bind}

-- A real tunnel comes up, or drops with the kill switch on.
pub data Holds : Wired → Wired → Type 0 where
  ups : (iface : Text) (w : Wired) → Holds w (bound_up true iface w)
  drops :
      (w : Wired) → or_else w.settings.kill_switch false ≡ true → Holds w (bound_down true false w)

pub data Chain (w : Wired) : Wired → Type 0 where
  here : Chain w w
  next : {x y : Wired} → Chain w x → Holds x y → Chain w y

-- The interface from before is noted.
abbrev Noted : Text → Wired → Type 0
Noted o w = w.settings.pre_vpn_interface ≡ some o

up-Noted : (o iface : Text) (w : Wired) → Noted o w → Noted o (bound_up true iface w)
unfolding bound_up
up-Noted o iface w h =
    if_cases (λ (x : Wired). Noted o (bind iface x)) (is_some w.settings.pre_vpn_interface) {x = w}
      {y = before_vpn (some w.settings.outgoing_interface) w} (λ _. h)
      (λ q. absurd (there w.settings.pre_vpn_interface h q))
  where
    there : (p : Option Text) → p ≡ some o → is_some p ≡ false → ⊥
    there p h q = cc

Holds-Noted : (o : Text) {x y : Wired} → Holds x y → Noted o x → Noted o y
unfolding bound_down
Holds-Noted o (ups iface w) h = up-Noted o iface w h
Holds-Noted o (drops w k) h =
    if_cases (Noted o) (or_else w.settings.kill_switch false) {x = w} {y = restore_interface w}
      (λ _. h) (λ q. absurd (clash (or_else w.settings.kill_switch false) k q))
  where
    clash : (b : Bool) → b ≡ true → b ≡ false → ⊥
    clash b h k = cc

Chain-Noted : (o : Text) {x y : Wired} → Chain x y → Noted o x → Noted o y
Chain-Noted o here h = h
Chain-Noted o (next c s) h = Holds-Noted o s (Chain-Noted o c h)

first-Noted :
    (iface : Text) (w : Wired)
    → w.settings.pre_vpn_interface ≡ none
    → Noted w.settings.outgoing_interface (bound_up true iface w)
unfolding bound_up
first-Noted iface w h =
    if_cases (λ (x : Wired). Noted w.settings.outgoing_interface (bind iface x))
      (is_some w.settings.pre_vpn_interface) {x = w}
      {y = before_vpn (some w.settings.outgoing_interface) w}
      (λ q. absurd (absent w.settings.pre_vpn_interface h q)) (λ _. refl)
  where
    absent : (p : Option Text) → p ≡ none → is_some p ≡ true → ⊥
    absent p h q = cc

restored :
    (o : Text) (w : Wired)
    → Noted o w
    → let x = bound_down true true w in
      (x.session.bound_to ≡ o)
      × (x.settings.outgoing_interface ≡ o)
      × (x.settings.pre_vpn_interface ≡ none)
unfolding bound_down restore_interface
restored o w h = rw (h, restore_interface) (refl, refl, refl)

-- From when a real tunnel first comes up to when it goes down on purpose, however often it comes up
-- again or drops under the kill switch in between, the session goes back to the interface that it
-- was bound to before, and nothing stays noted.
pub bound_down-restores :
    (iface : Text) (w : Wired) {x : Wired}
    → w.settings.pre_vpn_interface ≡ none
    → Chain (bound_up true iface w) x
    → let y = bound_down true true x in
      (y.session.bound_to ≡ w.settings.outgoing_interface)
      × (y.settings.outgoing_interface ≡ w.settings.outgoing_interface)
      × (y.settings.pre_vpn_interface ≡ none)
bound_down-restores iface w {x} h c =
    restored w.settings.outgoing_interface x
      (Chain-Noted w.settings.outgoing_interface c (first-Noted iface w h))
