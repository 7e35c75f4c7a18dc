-- ===== src/Tests/Merged.antt =====
-- Runs of src/services/downloads/httpmergeengine.cpp at fixed inputs, over an engine of one torrent.
use batorrent.Base.{
  [], arith, codes, false, none, pos, refl, starts_with, suc, text_eq, text_eq_iff, true, zero, ℕ,
  ◌<◌, ◌∷◌, ◌≡◌,
}
use batorrent.Downloads.HttpDownload.Types.{Disk, HttpDownload, Answers, create}
use batorrent.Downloads.Manager.{is_http_row_hash}
use batorrent.Downloads.MergeEngine.{Engine, Merged, hash_at, index_by_hash, run, torrent_count}
use batorrent.Downloads.MergeEngine.Commands.{pause_torrent}
use batorrent.Downloads.MergeEngine.Hashes.{
  Distinct, index_by_hash-hash_at, OneSide, about_pause_torrent, run-OneSide,
}

-- The engine counts the calls made to it; its one torrent has the hash "abc".
abbrev one_torrent : Engine ℕ (Unit {0})
one_torrent = record {
  torrent_count = λ s. 1;
  hash_at = λ s i. codes "abc";
  index_by_hash = λ s h. pos 0;
  run = λ c s. (suc s, pos 0);
}

abbrev no_disk : Disk
no_disk = record { part = none; final = none }

abbrev first_row : HttpDownload
first_row = create (codes "x") (codes "http://h/f") (codes "d") (codes "f") [] no_disk

abbrev second_row : HttpDownload
second_row = create (codes "y") (codes "http://h/g") (codes "d") (codes "g") [] no_disk

abbrev rows : Merged ℕ
rows = record {
  inner = 0;
  http = record {
    items = first_row ∷ second_row ∷ [];
    default_dir = codes "d";
    save_due = false;
    events = [];
  };
}

only_row : (i : ℕ) → i < 1 → (is_http_row_hash (codes "abc") ≡ false) × (pos 0 ≡ pos i)
unfolding is_http_row_hash starts_with
only_row zero h = (refl, refl)
only_row (suc i) h = absurd (omega arith)

no_clash : false ≡ true → ⊥
no_clash h = cc

Distinct-rows : Distinct (first_row ∷ second_row ∷ [])
unfolding create text_eq
Distinct-rows = ((λ e. no_clash ((text_eq_iff (codes "x") (codes "y")).1 e), tt), (tt, tt))

index_by_hash-hash_at_example :
    index_by_hash one_torrent rows (hash_at one_torrent rows (pos 2)) ≡ pos 2
unfolding torrent_count
index_by_hash-hash_at_example =
    index_by_hash-hash_at one_torrent rows 2 only_row Distinct-rows (omega arith)

abbrev works : Answers
works = record { open_succeeds = true; remove_succeeds = true; rename_succeeds = true }

run-OneSide_example :
    OneSide one_torrent rows (pos 0) (1, pos 0) (run one_torrent works (pause_torrent (pos 0)) rows)
run-OneSide_example =
    run-OneSide one_torrent works (pause_torrent (pos 0)) rows (pos 0) (about_pause_torrent (pos 0))
