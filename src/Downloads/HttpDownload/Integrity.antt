-- ===== src/Downloads/HttpDownload/Integrity.antt =====
-- A download from a server that sends the bytes it is asked for: what is on disk, and what the file
-- holds in the end. httpdownload.cpp calls this its integrity gate.
pub mod Asked
pub mod Requests
pub mod Receipts
pub mod World
pub mod Calls
pub mod Control
pub mod Transfers
pub mod Replies
pub mod Run
use native.Mathlib.Decide.{dec_le}
use batorrent.Base.{
  &&-left, &&-right, ==_iff, All, All-get, All-map, All-set, Bool, List, Option, Option-cases, [],
  ap, arith, false, get_elem?, if_cases, if◌then◌else◌, inl, inr, is_some, map, map-set_same, none,
  pos, pos_injective, refl, set, some, suc, sym, true, zero, ℕ, ℤ, ◌+ℤ◌, ◌+◌, ◌-ℤ◌, ◌<◌, ◌||◌, ◌∙◌,
  ◌∷◌, ◌≡◌, ◌≢◌, ◌≤◌, ◌⊎◌,
}
use batorrent.Downloads.RangePlan.{ByteRange, size}
use batorrent.Downloads.RangePlan.Tiling.{Tiles}
use batorrent.Downloads.HttpDownload.Types.{
  State, Segment, done, File, Disk, HttpDownload, Answers, rank, state_is, received_bytes, all_done,
  Failure, Signal, finished, failed, completed, progressed, downloading, cannot_finalize,
  cannot_open, size_mismatch,
}
use batorrent.Downloads.HttpDownload.{
  emit, set_state, drop_reply, abort_replies, fail, spawn_segment, spawn_where, finalize,
  maybe_complete, resize, opened_part, open_part, not_done, begin_opened, begin_segments, start,
}

abbrev pub ranges : List Segment → List ByteRange
ranges = map (λ s. s.range)

module _ (source : ℕ → ℕ) (n : ℕ) where
  -- What a segment has received stands in the part, as the source has it.
  pub record IsGood (f : File) (s : Segment) : Type 0 where
    pub first : ℕ
    pub count : ℕ
    pub at : s.range.start ≡ pos first
    pub got : s.received ≡ pos count
    pub within : first + count ≤ n
    pub same :
        (x : ℕ) → first ≤ x → x < first + count → (x < f.size_bytes) × (f.byte_at x ≡ source x)

  -- The segments, once planned, tile the file.
  pub record IsLaid (total : ℤ) (f : File) (ss : List Segment) : Type 0 where
    pub good : All (IsGood f) ss
    pub shape : (ss ≡ []) ⊎ ((total ≡ pos n) × Tiles 0 n (ranges ss))

  -- The file under its final name is the source.
  pub record IsSource (o : Option File) : Type 0 where
    pub file : File
    pub there : o ≡ some file
    pub length_is : file.size_bytes ≡ n
    pub bytes_are : (x : ℕ) → x < n → file.byte_at x ≡ source x

  -- The state of a download that is not completed.
  pub record IsLive (d : HttpDownload) : Type 0 where
    pub laid : IsLaid d.total (opened_part d.disk.part) d.segments
    pub sized : d.file_open ≡ true → (opened_part d.disk.part).size_bytes ≡ n
    pub opened : rank d.state ≡ 2 → d.file_open ≡ true
    pub asked : (d.probe ≡ none) ⊎ (rank d.state ≡ 1)
    pub going : rank d.state ≢ 4

  -- The file is there, and no reply is waited for that could change it.
  pub record IsOver (d : HttpDownload) : Type 0 where
    pub completed_is : rank d.state ≡ 4
    pub no_probe : d.probe ≡ none
    pub result : IsSource d.disk.final

  abbrev pub Inv : HttpDownload → Type 0
  Inv d = IsLive d ⊎ IsOver d

  -- A segment that is rewritten over the same range stays laid.
  pub IsLaid-set :
      {total : ℤ} {f : File} (ss : List Segment) (i : ℕ) (s v : Segment)
      → IsLaid total f ss
      → get_elem? ss i ≡ some s
      → v.range ≡ s.range
      → IsGood f v
      → IsLaid total f (set ss i v)
  IsLaid-set [] i s v l e r g = l
  IsLaid-set {f = f} (x ∷ xs) i s v l e r g = record {
    good = All-set (IsGood f) (x ∷ xs) i v l.good g;
    shape = elim l.shape [
      | inl h ↦ cc
      | inr h ↦ inr (h.0, rw (map-set_same (λ s. s.range) (x ∷ xs) i s v e r) h.1)
    ];
  }

  pub with_reply :
      {f : File} {s : Segment} (r : Option ℕ) → IsGood f s → IsGood f (record s { reply = r })
  with_reply r g = record {
    first = g.first;
    count = g.count;
    at = g.at;
    got = g.got;
    within = g.within;
    same = g.same;
  }

  ranges-drop : (ss : List Segment) → ranges (map drop_reply ss) ≡ ranges ss
  ranges-drop [] = refl
  ranges-drop (s ∷ ss) = ap (◌∷◌ s.range) (ranges-drop ss)

  pub IsLaid-drop :
      {total : ℤ} {f : File} (ss : List Segment)
      → IsLaid total f ss
      → IsLaid total f (map drop_reply ss)
  IsLaid-drop {f = f} ss l = record {
    good = All-map (IsGood f) (IsGood f) drop_reply ss (λ s g. with_reply none g) l.good;
    shape = elim l.shape [
      | inl h ↦ inl (ap (map drop_reply) h)
      | inr h ↦ inr (h.0, rw (ranges-drop ss) h.1)
    ];
  }

  pub emit-IsLive : (s : Signal) {d : HttpDownload} → IsLive d → IsLive (emit s d)
  emit-IsLive s v = record {
    laid = v.laid;
    sized = v.sized;
    opened = v.opened;
    asked = v.asked;
    going = v.going;
  }

  -- What has to hold besides for the new state.
  pub set_state-IsLive :
      (s : State) (d : HttpDownload)
      → IsLaid d.total (opened_part d.disk.part) d.segments
      → (d.file_open ≡ true → (opened_part d.disk.part).size_bytes ≡ n)
      → (rank s ≡ 2 → d.file_open ≡ true)
      → (d.probe ≡ none) ⊎ (rank s ≡ 1)
      → rank s ≢ 4
      → IsLive (set_state s d)
  unfolding set_state
  set_state-IsLive s d l z o a v =
      if_cases IsLive (state_is s d)
        (λ h.
          let e : rank d.state ≡ rank s = (==_iff _ _).0 h in
          record { laid = l; sized = z; opened = rw e o; asked = rw e a; going = rw e v })
        (λ h. record { laid = l; sized = z; opened = o; asked = a; going = v })

  pub fail-IsLive :
      (why : Failure) (d : HttpDownload)
      → IsLaid d.total (opened_part d.disk.part) d.segments
      → IsLive (fail why d)
  unfolding fail abort_replies
  fail-IsLive why d l = emit-IsLive (finished false) (
      set_state-IsLive failed _ (IsLaid-drop d.segments l) (λ e. cc) (λ e. absurd (omega arith))
        (inl refl) (λ e. absurd (omega arith)))

  pub spawn_segment-IsLive : (i : ℕ) {d : HttpDownload} → IsLive d → IsLive (spawn_segment i d)
  unfolding spawn_segment
  spawn_segment-IsLive i {d} v = elim (Option-cases (get_elem? d.segments i)) [
    | inl e ↦ rw (e, spawn_segment) v
    | inr (s, e) ↦
        rw (e, spawn_segment)
          (if_cases IsLive (is_some s.reply || done s) (λ _. v)
            (λ _. record {
              laid =
                  IsLaid-set d.segments i s _ v.laid e refl
                    (with_reply _ (All-get _ d.segments i v.laid.good e));
              sized = v.sized;
              opened = v.opened;
              asked = v.asked;
              going = v.going;
            }))
  ]

  -- An open part and planned segments: where the download may be found complete.
  pub record IsReady (d : HttpDownload) : Type 0 where
    pub live : IsLive d
    pub no_probe : d.probe ≡ none
    pub is_open : d.file_open ≡ true
    pub total_is : d.total ≡ pos n
    pub tiles : Tiles 0 n (ranges d.segments)

  pub spawn_segment-IsReady : (i : ℕ) {d : HttpDownload} → IsReady d → IsReady (spawn_segment i d)
  unfolding spawn_segment
  spawn_segment-IsReady i {d} r = elim (Option-cases (get_elem? d.segments i)) [
    | inl e ↦ rw (e, spawn_segment) r
    | inr (s, e) ↦ record {
      live = spawn_segment-IsLive i r.live;
      no_probe =
          rw (e, spawn_segment)
            (if_cases (λ (x : HttpDownload). x.probe ≡ none) (is_some s.reply || done s)
              (λ _. r.no_probe) (λ _. r.no_probe));
      is_open =
          rw (e, spawn_segment)
            (if_cases (λ (x : HttpDownload). x.file_open ≡ true) (is_some s.reply || done s)
              (λ _. r.is_open) (λ _. r.is_open));
      total_is =
          rw (e, spawn_segment)
            (if_cases (λ (x : HttpDownload). x.total ≡ pos n) (is_some s.reply || done s)
              (λ _. r.total_is) (λ _. r.total_is));
      tiles =
          rw (e, spawn_segment)
            (if_cases (λ (x : HttpDownload). Tiles 0 n (ranges x.segments))
              (is_some s.reply || done s) (λ _. r.tiles)
              (λ _.
                rw
                  (map-set_same (λ (s : Segment). s.range) d.segments i s
                    (record s { reply = some d.next_reply }) e refl)
                  r.tiles));
    }
  ]

  -- The loop keeps what each round keeps.
  pub spawn_where-keeps :
      (P : HttpDownload → Type 0) (test : Segment → Bool) (left i : ℕ) {d : HttpDownload}
      → ((j : ℕ) (x : HttpDownload) → P x → P (spawn_segment j x))
      → P d
      → P (spawn_where test left i d)
  unfolding spawn_where
  spawn_where-keeps P test zero i k p = p
  spawn_where-keeps P test (suc left) i {d} k p =
      spawn_where-keeps P test left (suc i) k (round (get_elem? d.segments i))
    where
      round :
          (o : Option Segment)
          → P (elim o [ none ↦ d | some s ↦ if test s then spawn_segment i d else d ])
      round none = p
      round (some s) = if_cases P (test s) (λ _. k i d p) (λ _. p)

  done_count :
      (s : Segment) (p m c : ℕ)
      → s.range.start ≡ pos p
      → s.range.end ≡ pos m
      → s.received ≡ pos c
      → done s ≡ true
      → suc m ≤ p + c
  unfolding done size ◌-ℤ◌ ◌+ℤ◌
  done_count s p m c a b e h = ground arith

  -- Segments that tile and are done leave no byte out.
  pub covered :
      (f : File) (ss : List Segment) (p q : ℕ)
      → Tiles p q (ranges ss)
      → All (IsGood f) ss
      → all_done ss ≡ true
      → (x : ℕ) → p ≤ x
      → x < q
      → (x < f.size_bytes) × (f.byte_at x ≡ source x)
  unfolding all_done
  covered f [] p q t g h x lo hi = absurd (omega arith)
  covered f (s ∷ ss) p q (m, a, le, b, t) (g, gs) h x lo hi =
      let start_is : g.first ≡ p = pos_injective (sym g.at ∙ a) in
      let enough : suc m ≤ p + g.count =
        done_count s p m g.count a b g.got (&&-left (done s) (all_done ss) h) in
      elim (dec_le x m) [
        | yes below ↦ g.same x (omega arith) (omega arith)
        | no above ↦
            covered f ss (suc m) q t gs (&&-right (done s) (all_done ss) h) x (omega arith) hi
      ]
