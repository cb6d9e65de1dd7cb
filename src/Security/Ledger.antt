-- ===== src/Security/Ledger.antt =====
-- What the sessions of SecurityManager promise, without its map: a session is known from the time it
-- is opened until it is closed or the manager stops, and is valid while it is young enough. Nothing is
-- forgotten because it expired.
use simple_nfsd.Prelude.{
  ℕ, ◌-◌, ◌/◌, ◌≤◌, Bool, true, false, ◌||◌, not, List, [], ◌∷◌, Option, none, some, ltb, ◌==◌,
  if◌then◌else◌, length,
}
use simple_nfsd.Map.Laws.{retained}
use simple_nfsd.Text.{equal}
use simple_nfsd.Security.{SecurityContext, SecurityConfig, SecurityManager, initialize, shutdown}
use simple_nfsd.Security.Sessions.{
  create_session, validate_session, destroy_session, cleanup_expired_sessions,
}

pub record Ledger : Type 0 where
  pub running : Bool
  pub timeout : ℕ
  pub holds : List ℕ → Option SecurityContext

pub data SessionCall : Type 0 where
  starts : SecurityConfig → SessionCall
  ends cleans : SessionCall
  opens : List ℕ → SecurityContext → SessionCall
  asks closes : List ℕ → SessionCall

abbrev pub empty_ledger : Ledger
empty_ledger = record { running = false; timeout = 3600; holds = λ id. none }

abbrev pub young : ℕ → ℕ → SecurityContext → Bool
young timeout now c = not (ltb timeout ((now - c.auth_time) / 1_000_000_000))

abbrev pub put : List ℕ → Option SecurityContext → Ledger → Ledger
put id v l = record l { holds = λ j. if equal id j then v else l.holds j }

-- Time passes without a trace, and cleaning up changes nothing that can be seen.
unfoldable pub record_call : SessionCall → Ledger → Ledger
record_call (starts config) l =
    if l.running then l else record l { running = true; timeout = config.session_timeout }
record_call ends l = if not l.running then l else record l { running = false; holds = λ id. none }
record_call cleans l = l
record_call (opens id c) l = if not l.running then l else put id (some c) l
record_call (asks id) l = l
record_call (closes id) l = if not l.running || length id == 0 then l else put id none l

unfoldable pub promised : ℕ → SessionCall → Ledger → Option SecurityContext
promised now (asks id) l =
    if not l.running || length id == 0 then none else retained (young l.timeout now) (l.holds id)
promised now (starts config) l = none
promised now ends l = none
promised now cleans l = none
promised now (opens id c) l = none
promised now (closes id) l = none

unfoldable pub promises : List (ℕ × SessionCall) → Ledger → List (Option SecurityContext)
promises [] l = []
promises ((now, c) ∷ cs) l = promised now c l ∷ promises cs (record_call c l)

-- The same calls made of the manager: its state and its answer, `some` being true with the context.
unfoldable pub session_step :
    ℕ → SessionCall → SecurityManager → SecurityManager × Option SecurityContext
session_step now (starts config) m = ((initialize config m).0, none)
session_step now ends m = (shutdown m, none)
session_step now cleans m = (cleanup_expired_sessions now m, none)
session_step now (opens id c) m = ((create_session id c m).0, none)
session_step now (asks id) m = validate_session now id m
session_step now (closes id) m = (destroy_session id m, none)

unfoldable pub answers : List (ℕ × SessionCall) → SecurityManager → List (Option SecurityContext)
answers [] m = []
answers ((now, c) ∷ cs) m = let r = session_step now c m in r.1 ∷ answers cs r.0

-- Time does not go back.
abbrev pub InOrder : ℕ → List (ℕ × SessionCall) → Type 0
InOrder t [] = Unit {0}
InOrder t ((now, c) ∷ cs) = (t ≤ now) × InOrder now cs
