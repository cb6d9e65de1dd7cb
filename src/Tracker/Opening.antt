-- ===== src/Tracker/Opening.antt =====
-- openFile locks the tracker's mutex twice.
use simple_nfsd.Prelude.{
  ℕ, ◌≡◌, refl, String, false, List, [], ◌∷◌, Option, none, some, arith, Option-cases, inl, inr,
}
use simple_nfsd.Map.{find, sweep, nat_key}
use simple_nfsd.Tracker.{
  FileAccessMode, FileSharingMode, FileAccessTracker, Result, returns, stuck, guarded, tracker,
  can_open_file, remove_expired_opens, open_file, close_found, close_file, close_file_for_client,
  close_file_for_path, update_found, update_access_mode, update_sharing_mode, cleanup_expired_opens,
  clear_all_opens,
}

-- openFile never returns, whatever the request and the tracker: canOpenFile waits for the mutex that
-- openFile holds.
pub open_file-stuck :
    (now : ℕ) (path : String) (client process : ℕ) (mode : FileAccessMode)
    (sharing : FileSharingMode) (t : FileAccessTracker)
    → open_file now path client process mode sharing t ≡ stuck
unfolding open_file can_open_file guarded remove_expired_opens
open_file-stuck now path client process mode sharing t = ground arith

-- The calls that may change the tracker.
pub data Call : Type 0 where
  opens : String → ℕ → ℕ → FileAccessMode → FileSharingMode → Call
  closes : ℕ → ℕ → Call
  closes_client : ℕ → Call
  closes_path : String → Call
  updates_access : ℕ → FileAccessMode → Call
  updates_sharing : ℕ → FileSharingMode → Call
  cleans_up clears : Call

-- The tracker after a call that returns.
abbrev pub after {ℓ} : {A : Type ℓ} → Result A → Option FileAccessTracker
after (returns a t) = some t
after stuck = none

unfoldable pub step : ℕ → Call → FileAccessTracker → Option FileAccessTracker
step now (opens path client process mode sharing) t =
    after (open_file now path client process mode sharing t)
step now (closes id client) t = after (close_file id client t)
step now (closes_client client) t = after (close_file_for_client client t)
step now (closes_path path) t = after (close_file_for_path path t)
step now (updates_access id mode) t = after (update_access_mode now id mode t)
step now (updates_sharing id mode) t = after (update_sharing_mode now id mode t)
step now cleans_up t = after (cleanup_expired_opens now t)
step now clears t = after (clear_all_opens t)

-- A history, which goes on as long as the calls return.
unfoldable pub run : List (ℕ × Call) → FileAccessTracker → Option FileAccessTracker
run [] t = some t
run ((now, c) ∷ cs) t = elim (step now c t) [ none ↦ none | some u ↦ run cs u ]

-- The tracker is free and no file is open.
pub record IsIdle (t : FileAccessTracker) : Type 0 where
  pub free : t.locked ≡ false
  pub empty : t.open_files ≡ []

step-IsIdle :
    (now : ℕ) (c : Call) (t u : FileAccessTracker) → IsIdle t → step now c t ≡ some u → IsIdle u
unfolding step guarded close_file close_found close_file_for_client close_file_for_path
    update_access_mode update_sharing_mode update_found cleanup_expired_opens clear_all_opens
    remove_expired_opens find sweep
step-IsIdle now (opens path client process mode sharing) t u v e =
    ground (arith, open_file-stuck now path client process mode sharing t)
step-IsIdle now (closes id client) t u v e = ground arith
step-IsIdle now (closes_client client) t u v e = ground arith
step-IsIdle now (closes_path path) t u v e = ground arith
step-IsIdle now (updates_access id mode) t u v e = ground arith
step-IsIdle now (updates_sharing id mode) t u v e = ground arith
step-IsIdle now cleans_up t u v e = ground arith
step-IsIdle now clears t u v e = ground arith

run-IsIdle_from :
    (cs : List (ℕ × Call)) (t u : FileAccessTracker) → IsIdle t → run cs t ≡ some u → IsIdle u
unfolding run
run-IsIdle_from [] t u v e = ground arith
run-IsIdle_from ((now, c) ∷ cs) t u v e = elim (Option-cases (step now c t)) [
  | inl s ↦ absurd (cc (rw (s, run) at e))
  | inr (w, s) ↦ run-IsIdle_from cs w u (step-IsIdle now c t w v s) (rw (s, run) at e)
]

-- A history of calls of a new tracker in which every call returns leaves no file open: no open is
-- ever recorded.
run-IsIdle : (cs : List (ℕ × Call)) (u : FileAccessTracker) → run cs tracker ≡ some u → IsIdle u
run-IsIdle cs u e = run-IsIdle_from cs tracker u start e
  where
    start : IsIdle tracker
    start = unfold tracker in record { free = refl; empty = refl }
