-- ===== src/Server/Handles.antt =====
-- The table of file handles: file_handles_ and next_handle_id_ of
-- include/simple-nfsd/core/server_simple.hpp with getHandleForPath and getPathFromHandle of
-- src/simple-nfsd/core/server_simple.cpp. A mutex makes each call one step. A path is its bytes.
use simple_nfsd.Prelude.{
  ℕ, ◌+◌, ◌%◌, ◌^◌, ◌≤◌, ◌<◌, ◌≡◌, refl, true, List, [], ◌∷◌, Option, none, some, ltb,
  if◌then◌else◌, arith, All, All-map, length, Bool-cases, Option-cases, inl, inr,
}
use simple_nfsd.Text.{equal}
use simple_nfsd.Text.Order.{equal_iff}
use simple_nfsd.Map.{nat_key, find, insert, Sorted}
use simple_nfsd.Map.Laws.{find-insert_self, Sorted-insert, All-insert, All-find}

pub record Handles : Type 0 where
  pub file_handles : List (ℕ × List ℕ)
  pub next_handle_id : ℕ

-- What the constructor leaves.
abbrev pub no_handles : Handles
no_handles = record { file_handles = []; next_handle_id = 1 }

-- The loop for a handle that the path has already.
unfoldable pub handle_of : List ℕ → List (ℕ × List ℕ) → Option ℕ
handle_of path [] = none
handle_of path ((h, p) ∷ m) = if equal p path then some h else handle_of path m

-- next_handle_id_ is a uint64_t, a handle a uint32_t.
abbrev pub new_handle : List ℕ → Handles → ℕ × Handles
new_handle path s = (
  s.next_handle_id % 2 ^ 32,
  record {
    file_handles = insert (s.next_handle_id % 2 ^ 32) path s.file_handles;
    next_handle_id = (s.next_handle_id + 1) % 2 ^ 64;
  },
)

abbrev pub known_or_new : List ℕ → Handles → Option ℕ → ℕ × Handles
known_or_new path s none = new_handle path s
known_or_new path s (some h) = (h, s)

unfoldable pub get_handle_for_path : List ℕ → Handles → ℕ × Handles
get_handle_for_path path s = known_or_new path s (handle_of path s.file_handles)

abbrev pub path_or_empty : Option (List ℕ) → List ℕ
path_or_empty none = []
path_or_empty (some p) = p

unfoldable pub get_path_from_handle : ℕ → Handles → List ℕ
get_path_from_handle h s = path_or_empty (find h s.file_handles)

-- The handles of a run of requests, the state after them.
unfoldable pub run : List (List ℕ) → Handles → Handles
run [] s = s
run (p ∷ ps) s = run ps (get_handle_for_path p s).1

-- Handles stand in order, below the next one, which no handle has wrapped round to.
abbrev pub IsTable : Handles → Type 0
IsTable s = Sorted s.file_handles × All (λ e. e.0 < s.next_handle_id) s.file_handles

find-handle_of :
    (path : List ℕ) (m : List (ℕ × List ℕ)) (h : ℕ)
    → Sorted m
    → handle_of path m ≡ some h
    → find h m ≡ some path
unfolding handle_of find
find-handle_of path [] h u e = absurd (cc)
find-handle_of path ((j, p) ∷ m) h u e = elim (Bool-cases (equal p path)) [
  | inl hit ↦ ground (arith, (equal_iff p path).0 hit)
  | inr miss ↦
      let rest : find h m ≡ some path = find-handle_of path m h u.1 (rw (← e) (rw miss refl)) in
      ground (arith, rest, All-find (λ e. ltb j e.0 ≡ true) h m path u.0 rest)
]

-- The handle that a request returns resolves to the path asked for, in every table in key order:
-- one that has wrapped round too.
pub get_path_from_handle-get_handle_for_path :
    (path : List ℕ) (s : Handles)
    → Sorted s.file_handles
    → get_path_from_handle (get_handle_for_path path s).0 (get_handle_for_path path s).1 ≡ path
unfolding get_handle_for_path get_path_from_handle
get_path_from_handle-get_handle_for_path path s u =
    elim (Option-cases (handle_of path s.file_handles)) [
      | inl none_yet ↦
          rw (none_yet, find-insert_self (s.next_handle_id % 2 ^ 32) path s.file_handles) refl
      | inr (h, known) ↦ rw (known, find-handle_of path s.file_handles h u known) refl
    ]

get_handle_for_path-IsTable :
    (path : List ℕ) (s : Handles)
    → IsTable s
    → s.next_handle_id < 2 ^ 32
    → IsTable (get_handle_for_path path s).1
      × ((get_handle_for_path path s).1.next_handle_id ≤ s.next_handle_id + 1)
unfolding get_handle_for_path
get_handle_for_path-IsTable path s t room = elim (Option-cases (handle_of path s.file_handles)) [
  | inl none_yet ↦ rw none_yet (
    (
      Sorted-insert (s.next_handle_id % 2 ^ 32) path s.file_handles t.0,
      All-insert (λ e. e.0 < (s.next_handle_id + 1) % 2 ^ 64) (s.next_handle_id % 2 ^ 32) path
          s.file_handles (omega arith)
          (All-map (λ e. e.0 < s.next_handle_id) (λ e. e.0 < (s.next_handle_id + 1) % 2 ^ 64)
            (λ e below. omega arith) s.file_handles t.1),
    ),
    omega arith,
  )
  | inr (h, known) ↦ rw known (t, omega arith)
]

-- A handle above all others goes to the end of the table: what was found is found still.
handle_of-insert :
    (path q : List ℕ) (k h : ℕ) (m : List (ℕ × List ℕ))
    → All (λ e. e.0 < k) m
    → handle_of path m ≡ some h
    → handle_of path (insert k q m) ≡ some h
unfolding handle_of insert
handle_of-insert path q k h [] below e = absurd (cc)
handle_of-insert path q k h ((j, p) ∷ m) below e =
    ground (arith, handle_of-insert path q k h m below.1, below.0)

handle_of-insert_new :
    (path : List ℕ) (k : ℕ) (m : List (ℕ × List ℕ))
    → All (λ e. e.0 < k) m
    → handle_of path m ≡ none
    → handle_of path (insert k path m) ≡ some k
unfolding handle_of insert
handle_of-insert_new path k [] below e = ground (arith, (equal_iff path path).1 refl)
handle_of-insert_new path k ((j, p) ∷ m) below e =
    ground (arith, handle_of-insert_new path k m below.1, below.0)

-- The table knows the path under the handle.
abbrev pub Knows : List ℕ → ℕ → Handles → Type 0
Knows path h s = IsTable s × (handle_of path s.file_handles ≡ some h)

get_handle_for_path-Knows :
    (path : List ℕ) (s : Handles)
    → IsTable s
    → s.next_handle_id < 2 ^ 32
    → Knows path (get_handle_for_path path s).0 (get_handle_for_path path s).1
unfolding get_handle_for_path
get_handle_for_path-Knows path s t room = (
  (get_handle_for_path-IsTable path s t room).0,
  elim (Option-cases (handle_of path s.file_handles)) [
    | inl none_yet ↦
        let whole : s.next_handle_id % 2 ^ 32 ≡ s.next_handle_id = omega arith in
        rw (none_yet, whole)
          (handle_of-insert_new path s.next_handle_id s.file_handles t.1 none_yet)
    | inr (h, known) ↦ rw (known, known) refl
  ],
)

kept :
    (path q : List ℕ) (h : ℕ) (s : Handles)
    → Knows path h s
    → s.next_handle_id < 2 ^ 32
    → handle_of path (get_handle_for_path q s).1.file_handles ≡ some h
unfolding get_handle_for_path
kept path q h s knows room = elim (Option-cases (handle_of q s.file_handles)) [
  | inl none_yet ↦
      let whole : s.next_handle_id % 2 ^ 32 ≡ s.next_handle_id = omega arith in
      rw (none_yet, whole)
        (handle_of-insert path q s.next_handle_id h s.file_handles knows.0.1 knows.1)
  | inr (j, known) ↦ rw known knows.1
]

run-IsTable :
    (ps : List (List ℕ)) (s : Handles)
    → IsTable s
    → s.next_handle_id + length ps ≤ 2 ^ 32
    → IsTable (run ps s) × ((run ps s).next_handle_id ≤ s.next_handle_id + length ps)
unfolding run
run-IsTable [] s t room = (t, omega arith)
run-IsTable (p ∷ ps) s t room =
    let (t1, le) = get_handle_for_path-IsTable p s t (omega arith) in
    let (t2, le2) = run-IsTable ps (get_handle_for_path p s).1 t1 (omega arith) in (t2, omega arith)

pub run-Knows :
    (path : List ℕ) (h : ℕ) (ps : List (List ℕ)) (s : Handles)
    → Knows path h s
    → s.next_handle_id + length ps ≤ 2 ^ 32
    → Knows path h (run ps s)
unfolding run
run-Knows path h [] s knows room = knows
run-Knows path h (p ∷ ps) s knows room =
    let (t1, le) = get_handle_for_path-IsTable p s knows.0 (omega arith) in
    run-Knows path h ps (get_handle_for_path p s).1 (t1, kept path p h s knows (omega arith))
      (omega arith)

pub Knows_lem :
    (path : List ℕ) (h : ℕ) (s : Handles)
    → Knows path h s
    → (get_path_from_handle h s ≡ path) × (get_handle_for_path path s ≡ (h, s))
unfolding get_path_from_handle get_handle_for_path
Knows_lem path h s knows =
    (rw (find-handle_of path s.file_handles h knows.0.0 knows.1) refl, rw knows.1 refl)

-- The handle that a request returns resolves to its path after any later requests, while there is room
-- for all of them below 2^32.
pub get_path_from_handle-later :
    (path : List ℕ) (later : List (List ℕ)) (s : Handles)
    → IsTable s
    → s.next_handle_id + length later + 1 ≤ 2 ^ 32
    → get_path_from_handle (get_handle_for_path path s).0 (run later (get_handle_for_path path s).1)
      ≡ path
get_path_from_handle-later path later s t room =
    let (t1, le) = get_handle_for_path-IsTable path s t (omega arith) in
    let knows = get_handle_for_path-Knows path s t (omega arith) in
    (Knows_lem path (get_handle_for_path path s).0 (run later (get_handle_for_path path s).1) (
      run-Knows path (get_handle_for_path path s).0 later (get_handle_for_path path s).1 knows
        (omega arith))).0

-- A handle is stable: while fewer than 2^32 paths have been asked for since the start, the handle
-- given out for a path resolves to that path after any further requests, and asking for the path
-- again returns the same handle and leaves the table as it is.
pub get_path_from_handle-run :
    (earlier later : List (List ℕ)) (path : List ℕ)
    → length earlier + length later + 2 ≤ 2 ^ 32
    → let (h, s) = get_handle_for_path path (run earlier no_handles) in
      (get_path_from_handle h (run later s) ≡ path)
      × (get_handle_for_path path (run later s) ≡ (h, run later s))
get_path_from_handle-run earlier later path room =
    let s = run earlier no_handles in
    let (t, le) = run-IsTable earlier no_handles (tt, tt) (omega arith) in
    let (t1, le1) = get_handle_for_path-IsTable path s t (omega arith) in
    Knows_lem path (get_handle_for_path path s).0 (run later (get_handle_for_path path s).1) (
      run-Knows path (get_handle_for_path path s).0 later (get_handle_for_path path s).1
        (get_handle_for_path-Knows path s t (omega arith)) (omega arith))
