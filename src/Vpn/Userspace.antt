-- ===== src/Vpn/Userspace.antt =====
-- src/services/vpn/wgtunnel_userspace.h and .cpp: the tunnel that a helper process runs. What is asked
-- of the process and what is emitted is logged, newest first. The JSON of a line is what the
-- parameter `event_of` makes of it; the path of the helper and the config are arguments. The messages
-- for the log file are left out.
pub mod Lines
pub mod Run
pub mod Idle
pub mod Ends
use batorrent.Base.{
  Bool, List, Option, Text, [], codes, eq_ℤ, false, if◌then◌else◌, is_empty, is_some, ltb_ℤ, none,
  not, pos, some, suc, text_eq, trimmed, true, ℕ, ℤ, ◌&&◌, ◌++◌, ◌==◌, ◌∷◌,
}

pub data Emitted : Type 0 where
  tunnel_connected : Text → Emitted
  tunnel_failed_with : Text → Emitted
  tunnel_disconnected : Emitted
  port_forwarded : ℤ → Emitted

pub data Effect : Type 0 where
  emits : Emitted → Effect
  starts_process : Effect
  writes_input : Text → Effect
  closes_input : Effect
  kills_process : Effect

-- What a line of the helper holds, with what is missing empty or 0.
pub record HelperEvent : Type 0 where
  pub ev : Text
  pub port : ℤ
  pub user : Text
  pub pass : Text
  pub ip : Text
  pub code : Text
  pub msg : Text

-- The processes are numbered, so that a late timer knows its own. `deferred` is what timers of 0 ms
-- will emit.
pub record Tunnel : Type 0 where
  pub proc : Option ℕ
  pub next_proc : ℕ
  pub buf : Text
  pub ready : Bool
  pub stopping : Bool
  pub error : Text
  pub final : Bool
  pub fwd : ℤ
  pub port : ℤ
  pub user : Text
  pub pass : Text
  pub ip : Text
  pub deferred : List Emitted
  pub log : List Effect

unfoldable pub userspace_tunnel : Tunnel
userspace_tunnel = record {
  proc = none;
  next_proc = 0;
  buf = [];
  ready = false;
  stopping = false;
  error = [];
  final = false;
  fwd = pos 0;
  port = pos 0;
  user = [];
  pass = [];
  ip = [];
  deferred = [];
  log = [];
}

abbrev pub does : Effect → Tunnel → Tunnel
does e s = record s { log = e ∷ s.log }

unfoldable pub describe_error : Text → Text → Text
unfolding text_eq
describe_error code detail =
    if text_eq code (codes "conf")
    then codes "The config file is not valid: " ++ detail
    else if text_eq code (codes "server")
    then codes "Could not reach the VPN server: " ++ detail
    else if text_eq code (codes "handshake")
    then codes "The VPN server did not answer. The config may be expired or the server down."
    else if text_eq code (codes "traffic")
    then codes "The VPN server answered, but nothing passes through it."
    else if is_empty detail
    then codes "The VPN stopped."
    else detail

abbrev pub interface_name : Tunnel → Text
interface_name s = if s.ready then codes "WireGuard · " ++ s.ip else []

-- The settings of the proxy: port, user, password and address, if it runs.
unfoldable pub socks_settings : Tunnel → Option (ℤ × Text × Text × Text)
socks_settings s = if s.ready then some (s.port, s.user, s.pass, s.ip) else none

unfoldable pub on_ready : HelperEvent → Tunnel → Tunnel
on_ready e s =
    let t = record s {
      port = e.port;
      user = e.user;
      pass = e.pass;
      ip = e.ip;
      ready = ltb_ℤ (pos 0) e.port;
    } in
    if t.ready && not t.stopping then does (emits (tunnel_connected (interface_name t))) t else t

unfoldable pub on_forwarded : HelperEvent → Tunnel → Tunnel
on_forwarded e s =
    let t = record s { fwd = e.port } in
    if t.ready then does (emits (port_forwarded t.fwd)) t else t

unfoldable pub on_event : HelperEvent → Tunnel → Tunnel
unfolding on_ready on_forwarded describe_error text_eq
on_event e s =
    if text_eq e.ev (codes "ready")
    then on_ready e s
    else if text_eq e.ev (codes "fwd")
    then on_forwarded e s
    else if text_eq e.ev (codes "error")
    then record s { final = text_eq e.code (codes "conf"); error = describe_error e.code e.msg }
    else if text_eq e.ev (codes "stale")
    then does closes_input (record s { error = codes "The VPN server stopped answering." })
    else s

-- The process is gone, or never started.
unfoldable pub end_process : Text → Tunnel → Tunnel
end_process error s =
    let t = record s {
      proc = none;
      ready = false;
      stopping = false;
      port = pos 0;
      user = [];
      pass = [];
      fwd = pos 0;
      log = if eq_ℤ s.fwd (pos 0) then s.log else emits (port_forwarded (pos 0)) ∷ s.log;
    } in
    if not (is_some s.proc)
    then s
    else does (emits (if s.stopping then tunnel_disconnected else tunnel_failed_with error)) t

module _ (event_of : Text → HelperEvent) where
  -- The loop over the lines of the buffer: the line so far, and the bytes that are left.
  unfoldable pub read_lines : Text → Text → Tunnel → Tunnel
  unfolding on_event trimmed
  read_lines line [] s = record s { buf = line }
  read_lines line (c ∷ cs) s = elim (c == 10) [
    | true ↦ read_lines [] cs (on_event (event_of (trimmed line)) s)
    | false ↦ read_lines (line ++ c ∷ []) cs s
  ]

  -- With what the process has written since.
  unfoldable pub read_events : Text → Tunnel → Tunnel
  unfolding read_lines
  read_events out s = if is_some s.proc then read_lines [] (s.buf ++ out) s else s

  abbrev pub last_words : Tunnel → Text
  last_words s =
      if not (is_empty s.error)
      then s.error
      else if s.ready
      then codes "The VPN stopped."
      else codes "The VPN component quit before connecting."

  -- The process has finished, with what it wrote last.
  unfoldable pub on_process_finished : Text → Tunnel → Tunnel
  unfolding read_events end_process
  on_process_finished out s = let t = read_events out s in end_process (last_words t) t

unfoldable pub on_failed_to_start : Tunnel → Tunnel
unfolding end_process
on_failed_to_start s = end_process (codes "The VPN component could not start.") s

abbrev pub fails_later : Text → Tunnel → Tunnel
fails_later why s = record s { final = true; deferred = s.deferred ++ tunnel_failed_with why ∷ [] }

abbrev pub started : Text → Tunnel → Tunnel
started conf s = record s {
  final = false;
  ready = false;
  stopping = false;
  error = [];
  buf = [];
  proc = some s.next_proc;
  next_proc = suc s.next_proc;
  log = writes_input (codes "\n.\n") ∷ writes_input conf ∷ starts_process ∷ s.log;
}

-- With whether the helper is there, and the config if it can be read.
abbrev pub spawn : Bool → Option Text → Tunnel → Tunnel
spawn has_helper conf s =
    if not has_helper
    then fails_later (codes "The VPN component is missing from this install.") s
    else elim conf [
      | none ↦ fails_later (codes "config missing on disk") s
      | some text ↦ started text s
    ]

unfoldable pub bring_up : Bool → Option Text → Tunnel → Tunnel
bring_up has_helper conf s = if is_some s.proc then s else spawn has_helper conf s

abbrev pub is_proc : Option ℕ → ℕ → Bool
is_proc none p = false
is_proc (some q) p = q == p

-- 40 seconds after a start of process `p`.
unfoldable pub on_backstop : ℕ → Tunnel → Tunnel
on_backstop p s =
    if is_proc s.proc p && not s.ready && not s.stopping
    then does kills_process (record s { error = codes "The VPN took too long to connect." })
    else s

unfoldable pub take_down : Tunnel → Tunnel
take_down s =
    if is_some s.proc
    then does closes_input (record s { stopping = true })
    else record s { deferred = s.deferred ++ tunnel_disconnected ∷ [] }

-- Three seconds after process `p` was asked to stop: it is killed if it is still there.
unfoldable pub on_stop_timeout : ℕ → Tunnel → Tunnel
on_stop_timeout p s = if is_proc s.proc p then does kills_process s else s

-- What a timer of 0 ms emits.
unfoldable pub on_deferred : Tunnel → Tunnel
on_deferred s = elim s.deferred [ [] ↦ s | e ∷ es ↦ does (emits e) (record s { deferred = es }) ]
