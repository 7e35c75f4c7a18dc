-- ===== src/Ipc/MediaFeed/Reader.antt =====
-- src/ipc/remotesource.cpp over src/ipc/mediafeed.cpp: the device of the player's process, with the
-- feed of the interface's process that answers it through the socket.
use batorrent.Base.{All, All-append, List, Text, [], subst, sym, ℕ, ℤ, ◌++◌, ◌∷◌, ◌≡◌}
use batorrent.Ipc.MediaFeed.{Feed, Answer, Signal, ready, failed, bytes_at, refused}
use batorrent.Ipc.MediaFeed.Serving.{IsRight, Inv}
use batorrent.Ipc.MediaFeed.Run.{Opened, Opened-Inv, Step-Keeps}
use batorrent.Ipc.MediaFeed.Run
use batorrent.Ipc.RemoteSource.{
  Source, remote_source, read_round, answer_bytes, answer_failure, abort,
}
use batorrent.Ipc.RemoteSource.Reads.{RoundIsRight}
use batorrent.Ipc.RemoteSource.Run.{read-RoundIsRight}
use batorrent.Ipc.RemoteSource.Run as RemoteRun

-- The answers that are on their way, in order.
pub record Player : Type 0 where
  pub device : Source
  pub feed : Feed
  pub sent : List Signal

-- What the device does with an answer.
unfoldable pub receive : Signal → Source → Source
receive (ready n) d = d
receive failed d = d
receive (bytes_at id offset bytes) d = answer_bytes id offset bytes d
receive (refused id) d = answer_failure id d

module _ (source : ℕ → ℕ) (to_long_long : Text → ℤ) where
  -- A read of the device, a step of the feed for any request, honest or not, and the arrival of an
  -- answer.
  pub data Moves : Player → Player → Type 0 where
    reads :
        (at max_size : ℕ) (x : Player)
        → Moves x (record x { device = (read_round at max_size x.device).1 })
    aborts : (x : Player) → Moves x (record x { device = abort x.device })
    feeds :
        (x : Player) {a : Answer}
        → Run.Step source to_long_long x.feed a
        → Moves x (record x { feed = a.0; sent = x.sent ++ a.1 })
    receives :
        (x : Player) (m : Signal) (ms : List Signal)
        → x.sent ≡ m ∷ ms
        → Moves x (record x { device = receive m x.device; sent = ms })

  pub data Plays (x : Player) : Player → Type 0 where
    here : Plays x x
    next : {y z : Player} → Plays x y → Moves y z → Plays x z

  -- The device's run is one that its own theorems know.
  abbrev Holds : Source → Player → Type 0
  Holds d x =
      RemoteRun.Reach source d x.device
      × Inv source to_long_long x.feed
      × All (IsRight source x.feed.size) x.sent

  receive-Reach :
      (m : Signal) (size : ℤ) (d e : Source)
      → IsRight source size m
      → RemoteRun.Reach source d e
      → RemoteRun.Reach source d (receive m e)
  unfolding receive
  receive-Reach (ready n) size d e i r = r
  receive-Reach failed size d e i r = r
  receive-Reach (bytes_at id offset bytes) size d e i r =
      RemoteRun.next r (RemoteRun.answers id offset bytes e i.0)
  receive-Reach (refused id) size d e i r = RemoteRun.next r (RemoteRun.fails id e)

  Moves-Holds : {d : Source} {x y : Player} → Moves x y → Holds d x → Holds d y
  Moves-Holds (reads at max_size x) (r, i, a) =
      (RemoteRun.next r (RemoteRun.reads at max_size x.device), i, a)
  Moves-Holds (aborts x) (r, i, a) = (RemoteRun.next r (RemoteRun.aborts x.device), i, a)
  Moves-Holds (feeds x {a = b} st) (r, i, a) =
      let (i', e, out) = Step-Keeps source to_long_long st i in
      (
        r,
        i',
        subst (λ n. All (IsRight source n) (x.sent ++ b.1)) (sym e)
            (All-append (IsRight source x.feed.size) x.sent b.1 a out),
      )
  Moves-Holds {d} (receives x m ms e) (r, i, a) =
      let (first, rest) = subst (All (IsRight source x.feed.size)) e a in
      (receive-Reach m x.feed.size d x.device first r, i, rest)

  Plays-Holds : {d : Source} {x y : Player} → Holds d x → Plays x y → Holds d y
  Plays-Holds h here = h
  Plays-Holds h (next p m) = Moves-Holds m (Plays-Holds h p)

  -- The player reads the file: however reads, requests, the server's bytes and answers interleave,
  -- what a read of the device returns are bytes of the file from the place that was asked for, no
  -- more than asked for and none past the end, and none at all only at the end or when none are
  -- wanted. The server is taken to send the bytes of the file from the place that its headers name.
  pub player-RoundIsRight :
      (feed : Feed) (x : Player) (at max_size : ℕ)
      → Opened source to_long_long feed
      → Plays (record { device = remote_source feed.size; feed = feed; sent = [] }) x
      → RoundIsRight source at max_size x.device.size (read_round at max_size x.device).0
  player-RoundIsRight feed x at max_size o p =
      let (r, _, _) = Plays-Holds (RemoteRun.here, Opened-Inv source to_long_long o, tt) p in
      read-RoundIsRight source feed.size x.device at max_size r
