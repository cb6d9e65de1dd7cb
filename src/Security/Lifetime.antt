-- ===== src/Security/Lifetime.antt =====
-- The sessions of SecurityManager answer as the ledger promises.
use simple_nfsd.Prelude.{
  ℕ, ◌≤◌, ◌≡◌, refl, ap, subst, ◌∙◌, sym, true, false, ◌||◌, not, List, [], ◌∷◌, Option, none, some,
  ◌==◌, keep_if, length, arith,
}
use simple_nfsd.Map.{find, insert, erase, sweep, Sorted}
use simple_nfsd.Map.Laws.{
  retained, find-insert, find-keep_if, Sorted-insert, Sorted-keep_if, sweep_lem, find-erase,
}
use simple_nfsd.Text.{equal}
use simple_nfsd.Text.Order.{text_key, equal_iff}
use simple_nfsd.Security.{
  SecurityContext, SecurityConfig, SecurityManager, security_manager, initialize, shutdown,
}
use simple_nfsd.Security.Sessions.{
  is_session_expired, count_sessions, create_session, validate_found, validate_session,
  destroy_session, cleanup_expired_sessions,
}
use simple_nfsd.Security.Ledger.{
  Ledger, SessionCall, empty_ledger, young, put, record_call, promised, promises, session_step,
  answers, InOrder, starts, ends, cleans, opens, asks, closes,
}
use simple_nfsd.Security.Agreement.{
  Agrees, young_mono, retained_absorb, Agrees-later, pair-Agrees, choice-Agrees, either-Agrees,
  turn-Agrees,
}

module _ (now : ℕ) (m : SecurityManager) (l : Ledger) (a : Agrees now m l) where
  initialize-Agrees :
      (config : SecurityConfig) → Agrees now (initialize config m).0 (record_call (starts config) l)
  unfolding initialize record_call
  initialize-Agrees config =
      pair-Agrees now m.initialized l.running (m, true)
        (record m { config = config; initialized = true }, true) l
        (record l { running = true; timeout = config.session_timeout }) a.running (λ on. a)
        (λ off. record {
          running = refl;
          timeout = refl;
          sorted = a.sorted;
          idle = λ on. absurd (cc);
          lookups = λ u k id. ground (arith, a.idle off id);
        })

  shutdown-Agrees : Agrees now (shutdown m) (record_call ends l)
  unfolding shutdown record_call find
  shutdown-Agrees =
      turn-Agrees now (not m.initialized) (not l.running) m
        (record m { active_sessions = []; initialized = false }) l
        (record l { running = false; holds = λ id. none }) (ap not a.running) (λ off. a)
        (λ on. record {
          running = refl;
          timeout = a.timeout;
          sorted = tt;
          idle = λ off id. (refl, refl);
          lookups = λ u k id. refl;
        })

  create_session-Agrees :
      (id : List ℕ) (c : SecurityContext)
      → Agrees now (create_session id c m).0 (record_call (opens id c) l)
  unfolding create_session record_call
  create_session-Agrees id c =
      pair-Agrees now (not m.initialized) (not l.running) (m, [])
        (count_sessions (record m { active_sessions = insert id c m.active_sessions }), id) l
        (put id (some c) l) (ap not a.running) (λ off. a)
        (λ on. record {
          running = a.running;
          timeout = a.timeout;
          sorted = Sorted-insert id c m.active_sessions a.sorted;
          idle = λ off. absurd (cc);
          lookups = λ u k j. ground (arith, find-insert id j c m.active_sessions, a.lookups u k j);
        })

  destroy_session-Agrees :
      (id : List ℕ) → Agrees now (destroy_session id m) (record_call (closes id) l)
  unfolding destroy_session record_call erase
  destroy_session-Agrees id =
      turn-Agrees now (not m.initialized || length id == 0) (not l.running || length id == 0) m
        (count_sessions (record m { active_sessions = erase id m.active_sessions })) l
        (put id none l) (ap (λ b. not b || length id == 0) a.running) (λ off. a)
        (λ on. record {
          running = a.running;
          timeout = a.timeout;
          sorted = Sorted-keep_if (λ e. not (equal e.0 id)) m.active_sessions a.sorted;
          idle = λ off. absurd (cc);
          lookups = λ u k j. ground (arith, find-erase id j m.active_sessions, a.lookups u k j);
        })

  -- An entry that has expired may go: the ledger shows it to no one any more.
  expired-Agrees :
      (id : List ℕ) (c : SecurityContext)
      → some c ≡ find id m.active_sessions
      → l.running ≡ true
      → is_session_expired now m c ≡ true
      → Agrees now (record m { active_sessions = erase id m.active_sessions }) l
  unfolding is_session_expired erase
  expired-Agrees id c found on old = record {
    running = a.running;
    timeout = a.timeout;
    sorted = Sorted-keep_if (λ e. not (equal e.0 id)) m.active_sessions a.sorted;
    idle = λ off. absurd (cc);
    lookups = λ u k j. ground (
      arith,
      find-erase id j m.active_sessions,
      equal_iff id j,
      a.lookups u k j,
      a.timeout,
      found,
      young_mono l.timeout now u c k,
    );
  }

  validate_found-Agrees :
      (id : List ℕ) (found : Option SecurityContext)
      → l.running ≡ true
      → found ≡ find id m.active_sessions
      → Agrees now (validate_found now id m found).0 l
        × ((validate_found now id m found).1 ≡ retained (young l.timeout now) found)
  unfolding validate_found is_session_expired
  validate_found-Agrees id none on e = (a, refl)
  validate_found-Agrees id (some c) on e = (
    choice-Agrees now (is_session_expired now m c)
        (record m { active_sessions = erase id m.active_sessions }, none) (m, some c) l
        (λ old. expired-Agrees id c e on old) (λ fresh. a),
    ground (arith, a.timeout),
  )

  kept-Agrees :
      (kept : List (List ℕ × SecurityContext))
      → kept ≡ keep_if (λ e. not (is_session_expired now m e.1)) m.active_sessions
      → l.running ≡ true
      → Agrees now (count_sessions (record m { active_sessions = kept })) l
  unfolding is_session_expired
  kept-Agrees kept e on = record {
    running = a.running;
    timeout = a.timeout;
    sorted = subst Sorted (sym e) (Sorted-keep_if _ m.active_sessions a.sorted);
    idle = λ off. absurd (cc);
    lookups = λ u k id.
        ap (retained (young l.timeout u)) (
          ap (find id) e
          ∙ find-keep_if (λ e. not (is_session_expired now m e.1)) id m.active_sessions a.sorted)
        ∙ retained_absorb (young l.timeout u) (λ c. not (is_session_expired now m c))
            (find id m.active_sessions)
            (λ c y. ground (arith, a.timeout, young_mono l.timeout now u c k))
        ∙ a.lookups u k id;
  }

  cleanup_expired_sessions-Agrees : Agrees now (cleanup_expired_sessions now m) l
  unfolding cleanup_expired_sessions
  cleanup_expired_sessions-Agrees =
      let kept = (sweep (λ e. is_session_expired now m e.1) m.active_sessions).0 in
      either-Agrees now (not m.initialized) m (count_sessions (record m { active_sessions = kept }))
        l (λ off. a)
        (λ on.
          kept-Agrees kept
            (ap (λ r. r.0) (sweep_lem (λ e. is_session_expired now m e.1) m.active_sessions))
            (ground (arith, a.running)))

  validate_session-Agrees :
      (id : List ℕ)
      → Agrees now (validate_session now id m).0 l
        × ((validate_session now id m).1 ≡ promised now (asks id) l)
  unfolding validate_session promised
  validate_session-Agrees id = (
    choice-Agrees now (not m.initialized || length id == 0) (m, none)
        (validate_found now id m (find id m.active_sessions)) l (λ off. a)
        (λ on.
          (validate_found-Agrees id (find id m.active_sessions) (ground (arith, a.running))
            refl).0),
    ground (
      arith,
      a.running,
      a.lookups now (omega arith) id,
      λ (on : l.running ≡ true). (validate_found-Agrees id (find id m.active_sessions) on refl).1,
    ),
  )

session_step-Agrees :
    (t now : ℕ) (call : SessionCall) (m : SecurityManager) (l : Ledger)
    → t ≤ now
    → Agrees t m l
    → Agrees now (session_step now call m).0 (record_call call l)
      × ((session_step now call m).1 ≡ promised now call l)
unfolding session_step record_call promised
session_step-Agrees t now call m l h a = go call (Agrees-later t now m l h a)
  where
    go :
        (call : SessionCall)
        → Agrees now m l
        → Agrees now (session_step now call m).0 (record_call call l)
          × ((session_step now call m).1 ≡ promised now call l)
    go (starts config) a = (initialize-Agrees now m l a config, refl)
    go ends a = (shutdown-Agrees now m l a, refl)
    go cleans a = (cleanup_expired_sessions-Agrees now m l a, refl)
    go (opens id c) a = (create_session-Agrees now m l a id c, refl)
    go (asks id) a = validate_session-Agrees now m l a id
    go (closes id) a = (destroy_session-Agrees now m l a id, refl)

answers-promises :
    (t : ℕ) (cs : List (ℕ × SessionCall)) (m : SecurityManager) (l : Ledger)
    → InOrder t cs
    → Agrees t m l
    → answers cs m ≡ promises cs l
unfolding answers promises
answers-promises t [] m l o a = refl
answers-promises t ((now, call) ∷ cs) m l o a =
    let s = session_step-Agrees t now call m l o.0 a in
    cc (s.1, answers-promises now cs _ _ o.1 s.0)

-- For every history of starting, stopping, opening, asking for, closing and cleaning up sessions of a
-- new SecurityManager, at times that do not go back, the answers of validateSession are those of a
-- ledger that holds what was opened and not closed since the last start, forgets nothing by cleaning
-- up or expiry, and shows a context while its age is within the timeout of the last start.
pub answers-refine :
    (cs : List (ℕ × SessionCall))
    → InOrder 0 cs
    → answers cs security_manager ≡ promises cs empty_ledger
unfolding security_manager find
answers-refine cs o = answers-promises 0 cs security_manager empty_ledger o (record {
  running = refl;
  timeout = refl;
  sorted = tt;
  idle = λ off id. (refl, refl);
  lookups = λ u k id. refl;
})
