-- ===== src/Downloads/MergeEngine/Hashes.antt =====
-- src/services/downloads/httpmergeengine.cpp: rows and their hashes, and the side that a call is for.
use batorrent.Base.{
  All, All-get, Bool, Bool-cases, List, Option, Text, [], ap, arith, false, get_elem?, if_cases,
  inl, inr, leb_ℤ, length, ltb, ltb→lt, none, not, pos, refl, some, starts_with-append, subst, suc,
  text_eq, text_eq_iff, text_eq_refl, true, zero, ℕ, ℤ, ◌+◌, ◌-ℤ◌, ◌-◌, ◌<ℤ◌, ◌<◌, ◌∙◌, ◌∷◌, ◌≡◌,
  ◌≢◌, ◌≤ℤ◌,
}
use mathlib.Core.Option.{some-injective}
use batorrent.Downloads.HttpDownload.Types.{HttpDownload, Answers}
use batorrent.Downloads.Manager.{
  http_row_hash, is_http_row_hash, http_row_id, index_of, http_row_prefix, at, Manager, pause_item,
  resume_item, remove_item,
}
use batorrent.Downloads.MergeEngine.{
  hash_of, row_behind, unless_http, on_row, on_download, Engine, Merged, base, is_http, http_at,
  torrent_count, hash_at, index_by_hash, run, delegate,
}
use batorrent.Downloads.MergeEngine.Commands.{
  Command, pause_torrent, resume_torrent, remove_torrent, set_file_priority,
  set_torrent_queue_position, set_sequential_download, prioritize_file_piece_boundaries,
  rename_file, extract_torrent, unmark_completed, stop_seeding_torrent, set_torrent_upload_limit,
  set_torrent_tags, set_torrent_stop_after_download, set_torrent_max_seed_seconds,
  set_torrent_download_limit, set_torrent_category, set_super_seeding, set_force_start,
  replace_trackers, move_storage, mark_completed, force_recheck, force_reannounce, export_torrent,
  add_tracker, stream_set_deadline_window,
}

-- The calls that are about a row: the others are about the whole session.
pub data IsAbout {X : Type 0} : Command X → ℤ → Type 0 where
  about_pause_torrent : (i : ℤ) → IsAbout (pause_torrent i) i
  about_resume_torrent : (i : ℤ) → IsAbout (resume_torrent i) i
  about_remove_torrent : (i : ℤ) (b : Bool) (c : Bool) → IsAbout (remove_torrent i b c) i
  about_set_file_priority : (i : ℤ) (b : ℤ) (c : ℤ) → IsAbout (set_file_priority i b c) i
  about_set_torrent_queue_position : (i : ℤ) (b : ℤ) → IsAbout (set_torrent_queue_position i b) i
  about_set_sequential_download : (i : ℤ) (b : Bool) → IsAbout (set_sequential_download i b) i
  about_prioritize_file_piece_boundaries :
      (i : ℤ) (b : ℤ) → IsAbout (prioritize_file_piece_boundaries i b) i
  about_rename_file : (i : ℤ) (b : ℤ) (c : Text) → IsAbout (rename_file i b c) i
  about_extract_torrent : (i : ℤ) (b : Text) → IsAbout (extract_torrent i b) i
  about_unmark_completed : (i : ℤ) → IsAbout (unmark_completed i) i
  about_stop_seeding_torrent : (i : ℤ) → IsAbout (stop_seeding_torrent i) i
  about_set_torrent_upload_limit : (i : ℤ) (b : ℤ) → IsAbout (set_torrent_upload_limit i b) i
  about_set_torrent_tags : (i : ℤ) (b : List Text) → IsAbout (set_torrent_tags i b) i
  about_set_torrent_stop_after_download :
      (i : ℤ) (b : ℤ) → IsAbout (set_torrent_stop_after_download i b) i
  about_set_torrent_max_seed_seconds :
      (i : ℤ) (b : ℤ) → IsAbout (set_torrent_max_seed_seconds i b) i
  about_set_torrent_download_limit : (i : ℤ) (b : ℤ) → IsAbout (set_torrent_download_limit i b) i
  about_set_torrent_category : (i : ℤ) (b : Text) → IsAbout (set_torrent_category i b) i
  about_set_super_seeding : (i : ℤ) (b : Bool) → IsAbout (set_super_seeding i b) i
  about_set_force_start : (i : ℤ) (b : Bool) → IsAbout (set_force_start i b) i
  about_replace_trackers : (i : ℤ) (b : List Text) → IsAbout (replace_trackers i b) i
  about_move_storage : (i : ℤ) (b : Text) → IsAbout (move_storage i b) i
  about_mark_completed : (i : ℤ) → IsAbout (mark_completed i) i
  about_force_recheck : (i : ℤ) → IsAbout (force_recheck i) i
  about_force_reannounce : (i : ℤ) → IsAbout (force_reannounce i) i
  about_export_torrent : (i : ℤ) (b : Text) → IsAbout (export_torrent i b) i
  about_add_tracker : (i : ℤ) (b : Text) → IsAbout (add_tracker i b) i
  about_stream_set_deadline_window :
      (i : ℤ) (b : ℤ) (c : ℤ) (d : ℤ) → IsAbout (stream_set_deadline_window i b c d) i

-- No two downloads have the same id.
abbrev pub Distinct : List HttpDownload → Type 0
Distinct [] = Unit {0}
Distinct (d ∷ ds) = All (λ (e : HttpDownload). d.id ≢ e.id) ds × Distinct ds

other_id : (a b : Text) → a ≢ b → text_eq a b ≡ false
other_id a b h = elim (Bool-cases (text_eq a b)) [
  | inl e ↦ absurd (h ((text_eq_iff a b).0 e))
  | inr e ↦ e
]

index_of-at :
    (ds : List HttpDownload) (k : ℕ) (d : HttpDownload)
    → Distinct ds
    → get_elem? ds k ≡ some d
    → index_of d.id ds ≡ some k
unfolding index_of
index_of-at [] k d u e = cc
index_of-at (x ∷ xs) zero d u e =
    subst (λ (y : HttpDownload). index_of y.id (x ∷ xs) ≡ some 0) (some-injective x d e)
      (rw (text_eq_refl x.id) refl)
index_of-at (x ∷ xs) (suc k) d u e =
    rw
      (
        other_id x.id d.id (All-get (λ (y : HttpDownload). x.id ≢ y.id) xs k u.0 e),
        index_of-at xs k d u.1 e,
      )
      refl

drop_prefix : (id : Text) → http_row_id (http_row_hash id) ≡ id
unfolding http_row_id http_row_hash
drop_prefix id = refl

own_hash : (id : Text) → is_http_row_hash (http_row_hash id) ≡ true
unfolding is_http_row_hash http_row_hash
own_hash id = starts_with-append http_row_prefix id

lookup : {A : Type 0} (xs : List A) (k : ℕ) → k < length xs → (a : A) × (get_elem? xs k ≡ some a)
lookup [] k h = absurd (omega arith)
lookup (x ∷ xs) zero h = (x, refl)
lookup (x ∷ xs) (suc k) h = lookup xs k (omega arith)

less_back : (b k : ℕ) → pos (b + k) -ℤ pos b ≡ pos k
unfolding ◌-ℤ◌
less_back b k = ground arith

le_test : (a b : ℤ) → a ≤ℤ b → leb_ℤ a b ≡ true
le_test a b h = ground arith

lt_test : (a b : ℤ) → a <ℤ b → leb_ℤ b a ≡ false
lt_test a b h = ground arith

module _ {S X : Type 0} (engine : Engine S X) where
  -- The wrapped engine finds its own rows, and its hashes are not those of downloads.
  abbrev pub FindsRows : S → Type 0
  FindsRows s =
      (i : ℕ)
      → i < engine.torrent_count s
      → (is_http_row_hash (engine.hash_at s (pos i)) ≡ false)
        × (engine.index_by_hash s (engine.hash_at s (pos i)) ≡ pos i)

  hash_of_http :
      (m : Merged S) (k : ℕ) (d : HttpDownload)
      → get_elem? m.http.items k ≡ some d
      → hash_at engine m (pos (base engine m + k)) ≡ http_row_hash d.id
  unfolding hash_at is_http http_at at
  hash_of_http m k d e =
      if_cases (λ (t : Text). t ≡ http_row_hash d.id)
        (not (is_http engine m (pos (base engine m + k))))
        {x = engine.hash_at m.inner (pos (base engine m + k))}
        {y = hash_of (http_at engine m (pos (base engine m + k)))}
        (λ h. absurd (not_below (base engine m) k h))
        (λ _. ap hash_of (ap (λ i. at i m.http) (less_back (base engine m) k) ∙ e))
    where
      not_below : (b k : ℕ) → not (leb_ℤ (pos b) (pos (b + k))) ≡ true → ⊥
      not_below b k h = ground arith

  hash_of_torrent :
      (m : Merged S) (i : ℕ)
      → i < base engine m
      → hash_at engine m (pos i) ≡ engine.hash_at m.inner (pos i)
  unfolding hash_at is_http
  hash_of_torrent m i h =
      if_cases (λ (t : Text). t ≡ engine.hash_at m.inner (pos i)) (not (is_http engine m (pos i)))
        {x = engine.hash_at m.inner (pos i)} {y = hash_of (http_at engine m (pos i))} (λ _. refl)
        (λ q. absurd (below (base engine m) i h q))
    where
      below : (b i : ℕ) → i < b → not (leb_ℤ (pos b) (pos i)) ≡ false → ⊥
      below b i h q = ground arith

  index_of_http :
      (m : Merged S) (k : ℕ) (d : HttpDownload)
      → Distinct m.http.items
      → get_elem? m.http.items k ≡ some d
      → index_by_hash engine m (http_row_hash d.id) ≡ pos (base engine m + k)
  unfolding index_by_hash
  index_of_http m k d u e = rw (own_hash d.id) (
      ap (row_behind (base engine m))
        (ap (λ id. index_of id m.http.items) (drop_prefix d.id) ∙ index_of-at m.http.items k d u e))

  index_of_torrent :
      (m : Merged S) (h : Text)
      → is_http_row_hash h ≡ false
      → index_by_hash engine m h ≡ engine.index_by_hash m.inner h
  unfolding index_by_hash
  index_of_torrent m h e = rw e refl

  http_row :
      (m : Merged S) (k : ℕ)
      → Distinct m.http.items
      → k < length m.http.items
      → index_by_hash engine m (hash_at engine m (pos (base engine m + k)))
        ≡ pos (base engine m + k)
  http_row m k u h =
      let (d, e) = lookup m.http.items k h in
      ap (index_by_hash engine m) (hash_of_http m k d e) ∙ index_of_http m k d u e

  torrent_row :
      (m : Merged S) (i : ℕ)
      → FindsRows m.inner
      → i < base engine m
      → index_by_hash engine m (hash_at engine m (pos i)) ≡ pos i
  torrent_row m i f h =
      ap (index_by_hash engine m) (hash_of_torrent m i h)
      ∙ index_of_torrent m (engine.hash_at m.inner (pos i)) (f i h).0
      ∙ (f i h).1

  -- Of the two sides, `after` has changed the one of the row only: `inner` is what the wrapped
  -- engine does with the call.
  abbrev pub OneSide : Merged S → ℤ → S × ℤ → Merged S × ℤ → Type 0
  OneSide m i inner after =
      (pos (base engine m) ≤ℤ i → (after.0.inner ≡ m.inner) × (after.1 ≡ pos 0))
      × (i <ℤ pos (base engine m) → (after.0.http ≡ m.http) × ((after.0.inner, after.1) ≡ inner))

  -- The hash of every row, torrent or download, leads back to that row, as long as the ids of the
  -- downloads differ, the wrapped engine finds its own rows, and none of its hashes looks like one
  -- of a download.
  pub index_by_hash-hash_at :
      (m : Merged S) (i : ℕ)
      → FindsRows m.inner
      → Distinct m.http.items
      → i < torrent_count engine m
      → index_by_hash engine m (hash_at engine m (pos i)) ≡ pos i
  unfolding torrent_count
  index_by_hash-hash_at m i f u h = elim (Bool-cases (ltb i (base engine m))) [
    | inl e ↦ torrent_row m i f (ltb→lt _ _ e)
    | inr e ↦
        let split : base engine m + (i - base engine m) ≡ i = ground arith in
        subst (λ n. index_by_hash engine m (hash_at engine m (pos n)) ≡ pos n) split
          (http_row m (i - base engine m) u (ground arith))
  ]

  unless_http-OneSide :
      (i : ℤ) (c : Command X) (m : Merged S)
      → OneSide m i (engine.run c m.inner) (unless_http engine i c m)
  unfolding unless_http is_http delegate
  unless_http-OneSide i c m = (
    λ h. rw (le_test (pos (base engine m)) i h) (refl, refl),
    λ h. rw (lt_test i (pos (base engine m)) h) (refl, refl),
  )

  keeps_inner :
      (f : HttpDownload → Manager → Manager) (m : Merged S) (o : Option HttpDownload)
      → (on_download engine f m o).inner ≡ m.inner
  keeps_inner f m none = refl
  keeps_inner f m (some d) = refl

  on_row-OneSide :
      (i : ℤ) (f : HttpDownload → Manager → Manager) (c : Command X) (m : Merged S)
      → OneSide m i (engine.run c m.inner) (on_row engine i f c m)
  unfolding on_row is_http delegate
  on_row-OneSide i f c m = (
    λ h. rw (le_test (pos (base engine m)) i h) (keeps_inner f m (http_at engine m i), refl),
    λ h. rw (lt_test i (pos (base engine m)) h) (refl, refl),
  )

  -- A call about a row behind the torrents leaves the wrapped engine as it was and answers 0; a call
  -- about any other row leaves the downloads as they were and is the wrapped engine's own. The calls
  -- about a row are the twenty-seven that `IsAbout` lists, of the forty-five.
  pub run-OneSide :
      (env : Answers) (c : Command X) (m : Merged S) (i : ℤ)
      → IsAbout c i
      → OneSide m i (engine.run c m.inner) (run engine env c m)
  unfolding run
  run-OneSide env _ m _ (about_pause_torrent i) =
      on_row-OneSide i (λ d. pause_item d.id) (pause_torrent i) m
  run-OneSide env _ m _ (about_resume_torrent i) =
      on_row-OneSide i (λ d. resume_item env d.id) (resume_torrent i) m
  run-OneSide env _ m _ (about_remove_torrent i b c) =
      on_row-OneSide i (λ d h. (remove_item b d.id h).0) (remove_torrent i b c) m
  run-OneSide env _ m _ (about_set_file_priority i b c) =
      unless_http-OneSide i (set_file_priority i b c) m
  run-OneSide env _ m _ (about_set_torrent_queue_position i b) =
      unless_http-OneSide i (set_torrent_queue_position i b) m
  run-OneSide env _ m _ (about_set_sequential_download i b) =
      unless_http-OneSide i (set_sequential_download i b) m
  run-OneSide env _ m _ (about_prioritize_file_piece_boundaries i b) =
      unless_http-OneSide i (prioritize_file_piece_boundaries i b) m
  run-OneSide env _ m _ (about_rename_file i b c) = unless_http-OneSide i (rename_file i b c) m
  run-OneSide env _ m _ (about_extract_torrent i b) = unless_http-OneSide i (extract_torrent i b) m
  run-OneSide env _ m _ (about_unmark_completed i) = unless_http-OneSide i (unmark_completed i) m
  run-OneSide env _ m _ (about_stop_seeding_torrent i) =
      unless_http-OneSide i (stop_seeding_torrent i) m
  run-OneSide env _ m _ (about_set_torrent_upload_limit i b) =
      unless_http-OneSide i (set_torrent_upload_limit i b) m
  run-OneSide env _ m _ (about_set_torrent_tags i b) =
      unless_http-OneSide i (set_torrent_tags i b) m
  run-OneSide env _ m _ (about_set_torrent_stop_after_download i b) =
      unless_http-OneSide i (set_torrent_stop_after_download i b) m
  run-OneSide env _ m _ (about_set_torrent_max_seed_seconds i b) =
      unless_http-OneSide i (set_torrent_max_seed_seconds i b) m
  run-OneSide env _ m _ (about_set_torrent_download_limit i b) =
      unless_http-OneSide i (set_torrent_download_limit i b) m
  run-OneSide env _ m _ (about_set_torrent_category i b) =
      unless_http-OneSide i (set_torrent_category i b) m
  run-OneSide env _ m _ (about_set_super_seeding i b) =
      unless_http-OneSide i (set_super_seeding i b) m
  run-OneSide env _ m _ (about_set_force_start i b) = unless_http-OneSide i (set_force_start i b) m
  run-OneSide env _ m _ (about_replace_trackers i b) =
      unless_http-OneSide i (replace_trackers i b) m
  run-OneSide env _ m _ (about_move_storage i b) = unless_http-OneSide i (move_storage i b) m
  run-OneSide env _ m _ (about_mark_completed i) = unless_http-OneSide i (mark_completed i) m
  run-OneSide env _ m _ (about_force_recheck i) = unless_http-OneSide i (force_recheck i) m
  run-OneSide env _ m _ (about_force_reannounce i) = unless_http-OneSide i (force_reannounce i) m
  run-OneSide env _ m _ (about_export_torrent i b) = unless_http-OneSide i (export_torrent i b) m
  run-OneSide env _ m _ (about_add_tracker i b) = unless_http-OneSide i (add_tracker i b) m
  run-OneSide env _ m _ (about_stream_set_deadline_window i b c d) =
      unless_http-OneSide i (stream_set_deadline_window i b c d) m
