-- ===== src/Nfs3/Effects.antt =====
-- What the parts of an NFSv3 procedure of src/simple-nfsd/core/server_simple.cpp do to the counters
-- and to the table of handles.
use simple_nfsd.Prelude.{
  ℕ, ◌+◌, ◌%◌, ◌^◌, ◌≡◌, refl, sym, ap, ◌∙◌, Bool, true, false, List, [], ◌∷◌, ◌++◌, Option,
  if◌then◌else◌,
}
use simple_nfsd.Rpc.{RpcMessage}
use simple_nfsd.Auth.{AuthContext}
use simple_nfsd.Server.Handles.{Handles, get_handle_for_path, run}
use simple_nfsd.Nfs2.{
  Files, State, Handler, Attempt, done, fails, faults, and_then, ◌>>=◌, require, ask, change, word,
  bytes_at, path_of, check_access, require_valid, full_path, handle_for, reply_with,
}
use simple_nfsd.Nfs2.Reading.{regular_file, count_read}
use simple_nfsd.Nfs2.Changing.{count_written, new_place}
use simple_nfsd.Nfs2.Links.{name_at}
use simple_nfsd.Nfs3.{
  Disk, word64, handle_at, text_at, entry_named, size_of, link_or_file, type_of, attributes_of,
  count_successful, succeed,
}
use simple_nfsd.Nfs3.Reading.{allowed_path, may, existing}

-- The second table comes from the first by requests for handles.
abbrev pub Grown : Handles → Handles → Type 0
Grown h h' = (paths : List (List ℕ)) × (h' ≡ run paths h)

run-append : (ps qs : List (List ℕ)) (h : Handles) → run (ps ++ qs) h ≡ run qs (run ps h)
unfolding run
run-append [] qs h = refl
run-append (p ∷ ps) qs h = run-append ps qs (get_handle_for_path p h).1

pub Grown-trans : (h h' h'' : Handles) → Grown h h' → Grown h' h'' → Grown h h''
Grown-trans h h' h'' (ps, e) (qs, g) = (ps ++ qs, g ∙ ap (run qs) e ∙ sym (run-append ps qs h))

pub Grown-refl : (h : Handles) → Grown h h
unfolding run
Grown-refl h = ([], refl)

-- Nothing is counted, and handles are only given out.
pub record Follows {F : Type 0} (s t : State F) : Type 0 where
  pub failed : t.failed_requests ≡ s.failed_requests
  pub successful : t.successful_requests ≡ s.successful_requests
  pub handles : Grown s.handles t.handles

pub Follows-trans : {F : Type 0} (s t u : State F) → Follows s t → Follows t u → Follows s u
Follows-trans s t u h k = record {
  failed = k.failed ∙ h.failed;
  successful = k.successful ∙ h.successful;
  handles = Grown-trans s.handles t.handles u.handles h.handles k.handles;
}

unfoldable pub Uncounted : {F A : Type 0} → Handler F A → Type 0
Uncounted m = (s : State _) → Follows s (m s).0

-- A success is counted where there is a reply, and nothing where there is none.
abbrev pub Tallied : {F : Type 0} → State F → State F × Attempt RpcMessage → Type 0
Tallied s (t, done r) =
    (t.failed_requests ≡ s.failed_requests)
    × (t.successful_requests ≡ (s.successful_requests + 1) % 2 ^ 64)
    × Grown s.handles t.handles
Tallied s (t, fails) = Follows s t
Tallied s (t, faults) = Follows s t

unfoldable pub Counted : {F : Type 0} → Handler F RpcMessage → Type 0
Counted m = (s : State _) → Tallied s (m s)

module _ {F A B : Type 0} (m : Handler F A) (f : A → Handler F B) where
  pub >>=-Uncounted : Uncounted m → ((a : A) → Uncounted (f a)) → Uncounted (m >>= f)
  unfolding Uncounted
  >>=-Uncounted h k s = go (m s) (h s)
    where
      go : (r : State F × Attempt A) → Follows s r.0 → Follows s (and_then f r).0
      go (u, done a) e = Follows-trans s u (f a u).0 e (k a u)
      go (u, fails) e = e
      go (u, faults) e = e

Tallied-after :
    {F : Type 0} (s u : State F) (r : State F × Attempt RpcMessage)
    → Follows s u
    → Tallied u r
    → Tallied s r
Tallied-after s u (t, done a) e (failed, successful, grown) = (
  failed ∙ e.failed,
  successful ∙ ap (λ n. (n + 1) % 2 ^ 64) e.successful,
  Grown-trans s.handles u.handles t.handles e.handles grown,
)
Tallied-after s u (t, fails) e h = Follows-trans s u t e h
Tallied-after s u (t, faults) e h = Follows-trans s u t e h

pub >>=-Counted :
    {F A : Type 0} (m : Handler F A) (f : A → Handler F RpcMessage)
    → Uncounted m
    → ((a : A) → Counted (f a))
    → Counted (m >>= f)
unfolding Uncounted Counted
>>=-Counted m f h k s = go (m s) (h s)
  where
    go : (r : State _ × Attempt _) → Follows s r.0 → Tallied s (and_then f r)
    go (u, done a) e = Tallied-after s u (f a u) e (k a u)
    go (u, fails) e = e
    go (u, faults) e = e

pub if-Uncounted :
    {F A : Type 0} (b : Bool) (x y : Handler F A)
    → Uncounted x
    → Uncounted y
    → Uncounted (if b then x else y)
if-Uncounted true x y h k = h
if-Uncounted false x y h k = k

pub if-Counted :
    {F : Type 0} (b : Bool) (x y : Handler F RpcMessage)
    → Counted x
    → Counted y
    → Counted (if b then x else y)
if-Counted true x y h k = h
if-Counted false x y h k = k

still :
    {F : Type 0} (s t : State F)
    → t.failed_requests ≡ s.failed_requests
    → t.successful_requests ≡ s.successful_requests
    → t.handles ≡ s.handles
    → Follows s t
unfolding run
still s t failed successful same = record {
  failed = failed;
  successful = successful;
  handles = ([], same);
}

module _ (F : Type 0) where
  pub require-Uncounted : (b : Bool) → Uncounted (require {F = F} b)
  unfolding require Uncounted
  require-Uncounted b s = still s _ refl refl refl

  pub ask-Uncounted : {A : Type 0} (q : F → Option A) → Uncounted (ask q)
  unfolding ask Uncounted
  ask-Uncounted q s = still s _ refl refl refl

  pub change-Uncounted : {A : Type 0} (q : F → F × Option A) → Uncounted (change q)
  unfolding change Uncounted
  change-Uncounted q s = still s _ refl refl refl

  pub word-Uncounted : (bytes : List ℕ) (offset : ℕ) → Uncounted (word {F = F} bytes offset)
  unfolding word Uncounted
  word-Uncounted bytes offset s = still s _ refl refl refl

  pub bytes_at-Uncounted :
      (bytes : List ℕ) (offset n : ℕ) → Uncounted (bytes_at {F = F} bytes offset n)
  unfolding bytes_at Uncounted
  bytes_at-Uncounted bytes offset n s = still s _ refl refl refl

  pub path_of-Uncounted : (handle : ℕ) → Uncounted (path_of {F = F} handle)
  unfolding path_of Uncounted
  path_of-Uncounted handle s = still s _ refl refl refl

  pub check_access-Uncounted :
      (path : List ℕ) (c : AuthContext) (r w : Bool) → Uncounted (check_access {F = F} path c r w)
  unfolding check_access Uncounted
  check_access-Uncounted path c r w s = still s _ refl refl refl

  pub may-Uncounted :
      (path : List ℕ) (c : AuthContext) (r w : Bool) → Uncounted (may {F = F} path c r w)
  unfolding may Uncounted
  may-Uncounted path c r w s = still s _ refl refl refl

  pub require_valid-Uncounted : (os : Files F) (path : List ℕ) → Uncounted (require_valid os path)
  unfolding require_valid Uncounted
  require_valid-Uncounted os path s = still s _ refl refl refl

  pub full_path-Uncounted : (path : List ℕ) → Uncounted (full_path {F = F} path)
  unfolding full_path Uncounted
  full_path-Uncounted path s = still s _ refl refl refl

  pub count_read-Uncounted : (os : Files F) (n : ℕ) → Uncounted (count_read os n)
  unfolding count_read Uncounted
  count_read-Uncounted os n s = still s _ refl refl refl

  pub count_written-Uncounted : (os : Files F) (n : ℕ) → Uncounted (count_written os n)
  unfolding count_written Uncounted
  count_written-Uncounted os n s = still s _ refl refl refl

  pub handle_for-Uncounted : (path : List ℕ) → Uncounted (handle_for {F = F} path)
  unfolding handle_for Uncounted run
  handle_for-Uncounted path s = record {
    failed = refl;
    successful = refl;
    handles = (path ∷ [], refl);
  }

  pub return-Uncounted : {A : Type 0} (f : State F → A) → Uncounted (λ u. (u, done (f u)))
  unfolding Uncounted
  return-Uncounted f s = still s _ refl refl refl

  pub succeed-Counted : (m : RpcMessage) (bytes : List ℕ) → Counted (succeed {F = F} m bytes)
  unfolding succeed count_successful reply_with Counted
  succeed-Counted m bytes s = (refl, refl, Grown-refl s.handles)

pub ruleset steps = (
  >>=-Uncounted, if-Uncounted, require-Uncounted, ask-Uncounted, change-Uncounted, word-Uncounted,
  bytes_at-Uncounted, path_of-Uncounted, check_access-Uncounted, may-Uncounted,
  require_valid-Uncounted, full_path-Uncounted, count_read-Uncounted, count_written-Uncounted,
  handle_for-Uncounted, return-Uncounted,
)

module _ (F : Type 0) (bytes : List ℕ) where
  pub word64-Uncounted : (offset : ℕ) → Uncounted (word64 {F = F} bytes offset)
  unfolding word64
  word64-Uncounted offset = search (steps) depth 30

  pub handle_at-Uncounted : (offset : ℕ) → Uncounted (handle_at {F = F} bytes offset)
  unfolding handle_at
  handle_at-Uncounted offset = search (word64-Uncounted, steps) depth 30

  pub text_at-Uncounted : (offset : ℕ) → Uncounted (text_at {F = F} bytes offset)
  unfolding text_at
  text_at-Uncounted offset = search steps depth 30

  pub name_at-Uncounted : (offset more : ℕ) → Uncounted (name_at {F = F} bytes offset more)
  unfolding name_at
  name_at-Uncounted offset more = search steps depth 30

  pub entry_named-Uncounted : Uncounted (entry_named {F = F} bytes)
  unfolding entry_named
  entry_named-Uncounted = search (handle_at-Uncounted, text_at-Uncounted, steps) depth 30

  pub allowed_path-Uncounted :
      (c : AuthContext) (r w : Bool) → Uncounted (allowed_path {F = F} bytes c r w)
  unfolding allowed_path
  allowed_path-Uncounted c r w = search (handle_at-Uncounted, steps) depth 30

module _ {F : Type 0} (os : Files F) where
  pub regular_file-Uncounted : (path : List ℕ) → Uncounted (regular_file os path)
  unfolding regular_file
  regular_file-Uncounted path = search steps depth 30

  pub new_place-Uncounted :
      (handle : ℕ) (name : List ℕ) (c : AuthContext) → Uncounted (new_place os handle name c)
  unfolding new_place
  new_place-Uncounted handle name c = search steps depth 30

module _ {F : Type 0} (disk : Disk F) (path : List ℕ) where
  pub existing-Uncounted : Uncounted (existing disk path)
  unfolding existing
  existing-Uncounted = search (steps) depth 30

  pub size_of-Uncounted : Uncounted (size_of disk path)
  unfolding size_of
  size_of-Uncounted = search steps depth 30

  pub link_or_file-Uncounted : Uncounted (link_or_file disk path)
  unfolding link_or_file
  link_or_file-Uncounted = search steps depth 30

  pub type_of-Uncounted : Uncounted (type_of disk path)
  unfolding type_of
  type_of-Uncounted = search (link_or_file-Uncounted, steps) depth 30

  pub attributes_of-Uncounted : (handle : ℕ) → Uncounted (attributes_of disk path handle)
  unfolding attributes_of
  attributes_of-Uncounted handle = search (size_of-Uncounted, type_of-Uncounted, steps) depth 30

pub ruleset parts = (
  steps, word64-Uncounted, handle_at-Uncounted, text_at-Uncounted, name_at-Uncounted,
  entry_named-Uncounted, allowed_path-Uncounted, regular_file-Uncounted, new_place-Uncounted,
  existing-Uncounted, size_of-Uncounted, type_of-Uncounted, attributes_of-Uncounted,
)
