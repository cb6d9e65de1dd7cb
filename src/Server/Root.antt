-- ===== src/Server/Root.antt =====
-- For whom the procedures run as uid 0.
use simple_nfsd.Prelude.{
  ℕ, ◌≡◌, ◌≢◌, true, ◌||◌, List, [], ◌∷◌, some, ◌==◌, ==_iff, ap, arith, Bool-cases, inl, inr,
}
use simple_nfsd.Bytes.{ok}
use simple_nfsd.Rpc.{RpcMessage}
use simple_nfsd.Auth.{
  AuthManager, AuthContext, AuthResult, accept, is_success, authenticate, accept_auth_sys, squash,
}
use simple_nfsd.Auth.Squash.{authenticate_total}
use simple_nfsd.Server.Calls.{
  NfsServerSimple, runs_procedure, no_context, authenticate_request, process_rpc_message,
}
use simple_nfsd.Server.Access.{process_rpc_message-runs}

authenticate-root :
    (a : AuthManager) (body verifier : List ℕ) (c c' : AuthContext) (r : AuthResult)
    → (a.root_squash || a.all_squash) ≡ true
    → a.anon_uid ≢ 0
    → is_success r ≡ true
    → authenticate a body verifier c ≡ accept (r, c')
    → c'.uid ≡ 0
    → (rest : List ℕ) × (body ≡ 1 ∷ rest)
unfolding authenticate accept_auth_sys squash
authenticate-root a [] verifier c c' r on anon good e root = absurd (ground arith)
authenticate-root a (t ∷ rest) verifier c c' r on anon good e root = elim (Bool-cases (t == 1)) [
  | inl one ↦ (rest, ap (λ x. x ∷ rest) ((==_iff t 1).0 one))
  | inr other ↦ absurd (ground arith)
]

authenticate_request-some :
    (a : AuthManager) (m : RpcMessage) (c : AuthContext)
    → authenticate_request (some a) m ≡ accept (true, c)
    → (r : AuthResult) × (is_success r ≡ true)
      × (authenticate a m.header.cred.body m.header.verf.body no_context ≡ accept (r, c))
unfolding authenticate_request
authenticate_request-some a m c e =
    let (r, c', h, _) = authenticate_total a m.header.cred.body m.header.verf.body no_context in
    let same : accept (is_success r, c') ≡ accept (true, c) = rw (h, authenticate_request) at e in
    (r, ground (arith, same), ground (arith, h, same))

-- Under root or all squash, with an anonymous user other than 0, a procedure runs as uid 0 only for
-- credentials whose first byte is 1.
pub process_rpc_message-root :
    (now : ℕ) (raw : List ℕ) (s s' : NfsServerSimple) (v : ℕ) (m : RpcMessage) (c : AuthContext)
    (a : AuthManager)
    → s.auth_manager ≡ some a
    → (a.root_squash || a.all_squash) ≡ true
    → a.anon_uid ≢ 0
    → process_rpc_message now raw s ≡ ok (s', runs_procedure v m c)
    → c.uid ≡ 0
    → (rest : List ℕ) × (m.header.cred.body ≡ 1 ∷ rest)
process_rpc_message-root now raw s s' v m c a has on anon e root =
    let (_, _, _, _, granted, _) = process_rpc_message-runs now raw s s' v m c e in
    let asked : authenticate_request (some a) m ≡ accept (true, c) = rw has at granted in
    let (r, good, h) = authenticate_request-some a m c asked in
    authenticate-root a m.header.cred.body m.header.verf.body no_context c r on anon good h root
