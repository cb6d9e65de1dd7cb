-- ===== src/Tracker/Sharing.antt =====
-- The sharing rule of checkSharingConflict and the answer of canOpenFile.
use simple_nfsd.Prelude.{
  ℕ, ◌≡◌, refl, String, Bool, false, ◌&&◌, not, [], ◌∷◌, ◌==◌, any_of, arith, str_eq,
}
use simple_nfsd.Tracker.{
  FileAccessMode, FileSharingMode, FileOpenState, Opens, FileAccessTracker, returns, guarded,
  check_sharing_conflict, can_open_loop, can_open_file,
}

-- Which of two opens came first does not matter to the sharing rule.
sharing_conflict_comm :
    (a b : FileOpenState)
    → check_sharing_conflict a b.access_mode b.sharing_mode
      ≡ check_sharing_conflict b a.access_mode a.sharing_mode
unfolding check_sharing_conflict
sharing_conflict_comm a b = ground arith

-- A valid open of another client on the path that the sharing rule sets against the request.
abbrev pub hinders : String → FileAccessMode → FileSharingMode → ℕ → FileOpenState → Bool
hinders path mode sharing client o =
    o.is_valid
    && (not (o.client_id == client)
        && (str_eq o.file_path path && check_sharing_conflict o mode sharing))

can_open_loop_lem :
    (path : String) (mode : FileAccessMode) (sharing : FileSharingMode) (client : ℕ) (m : Opens)
    → can_open_loop path mode sharing client m
      ≡ not (any_of (λ e. hinders path mode sharing client e.1) m)
unfolding can_open_loop
can_open_loop_lem path mode sharing client [] = refl
can_open_loop_lem path mode sharing client ((id, o) ∷ m) =
    ground (arith, can_open_loop_lem path mode sharing client m)

-- On a free tracker canOpenFile returns, changes nothing, and answers true exactly when no valid
-- open of another client on the path conflicts with the request.
can_open_file_lem :
    (path : String) (mode : FileAccessMode) (sharing : FileSharingMode) (client : ℕ)
    (t : FileAccessTracker)
    → t.locked ≡ false
    → can_open_file path mode sharing client t
      ≡ returns (not (any_of (λ e. hinders path mode sharing client e.1) t.open_files)) t
unfolding can_open_file guarded
can_open_file_lem path mode sharing client t free =
    ground (arith, can_open_loop_lem path mode sharing client t.open_files)
