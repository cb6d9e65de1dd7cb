-- ===== src/Tracker/Runs.antt =====
-- Concrete runs of the tracker, and the theorems at concrete inputs.
use simple_nfsd.Prelude.{ℕ, ◌≡◌, refl, true, false, List, [], ◌∷◌, some}
use simple_nfsd.Map.{sweep}
use simple_nfsd.Tracker.{
  FileAccessMode, read_only, read_write, FileSharingMode, exclusive, shared_read, FileOpenState,
  FileAccessTracker, Result, returns, stuck, guarded, tracker, check_sharing_conflict,
  can_open_file, open_file, close_file_for_client,
}
use simple_nfsd.Tracker.Opening.{open_file-stuck, Call, closes_client, closes_path, step, run}

abbrev first_open : FileOpenState
first_open = record {
  file_path = "/a";
  client_id = 1;
  process_id = 10;
  access_mode = read_write;
  sharing_mode = shared_read;
  opened_at = 5;
  last_accessed = 5;
  is_valid = true;
}

abbrev one_open : FileAccessTracker
one_open = record { locked = false; open_files = (1, first_open) ∷ []; next_open_id = 2 }

open_file-stuck_example : open_file 6 "/b" 2 20 read_only shared_read one_open ≡ stuck
open_file-stuck_example = open_file-stuck 6 "/b" 2 20 read_only shared_read one_open

abbrev history : List (ℕ × Call)
history = (5, closes_client 1) ∷ (6, closes_path "/a") ∷ []

history_returns : run history tracker ≡ some tracker
unfolding run step tracker close_file_for_client simple_nfsd.Tracker.close_file_for_path guarded
    sweep
history_returns = refl
