-- ===== src/Server/Access.antt =====
-- Which calls reach the procedures, and what the server counts.
use simple_nfsd.Prelude.{
  ℕ, ◌≡◌, ◌≢◌, refl, Bool, true, false, ◌||◌, List, [], ◌∷◌, Option, none, some, ◌==◌, arith,
  Option-cases, ◌&&◌, is_some, Bool-cases, inl, inr, if◌then◌else◌,
}
use simple_nfsd.Bytes.{Outcome, ok, thrown, fault, Outcome-cases}
use simple_nfsd.Rpc.{RpcMessage, call, deserialize_message, validate_message}
use simple_nfsd.Auth.{
  AuthManager, AuthContext, AuthResult, Parsed, accept, reject, bad, is_success, authenticate,
  accept_auth_sys, squash,
}
use simple_nfsd.Auth.Squash.{authenticate_total}
use simple_nfsd.Portmapper.{inc}
use simple_nfsd.Server.Versions.{negotiate_nfs_version}
use simple_nfsd.Server.Calls.{
  NfsServerSimple, Effect, ends, runs_procedure, portmap_program, nfs_program, no_context,
  authenticate_request, handle_portmapper_call, serve, serve_authenticated, handle_rpc_call,
  handle_parsed, process_rpc_message,
}

authenticate-authenticated :
    (m : AuthManager) (credentials verifier : List ℕ) (c c' : AuthContext) (r : AuthResult)
    → is_success r ≡ true
    → authenticate m credentials verifier c ≡ accept (r, c')
    → c'.authenticated ≡ true
unfolding authenticate accept_auth_sys squash
authenticate-authenticated m [] verifier c c' r good e = ground arith
authenticate-authenticated m (t ∷ rest) verifier c c' r good e = ground arith

authenticate_request-authenticated :
    (o : Option AuthManager) (m : RpcMessage) (c : AuthContext)
    → authenticate_request o m ≡ accept (true, c)
    → c.authenticated ≡ true
unfolding authenticate_request
authenticate_request-authenticated none m c e = ground arith
authenticate_request-authenticated (some a) m c e =
    let (r, c', h, _) = authenticate_total a m.header.cred.body m.header.verf.body no_context in
    let same : accept (is_success r, c') ≡ accept (true, c) = rw (h, authenticate_request) at e in
    ground (
      arith,
      same,
      authenticate-authenticated a m.header.cred.body m.header.verf.body no_context c' r,
    )

serve-runs :
    (v w : ℕ) (m n : RpcMessage) (c d : AuthContext) (s s' : NfsServerSimple)
    → serve v m c s ≡ (s', runs_procedure w n d)
    → (w ≡ v) × (n ≡ m) × (d ≡ c)
unfolding serve
serve-runs v w m n c d s s' e = ground arith

serve_authenticated-runs :
    (m n : RpcMessage) (s s' : NfsServerSimple) (v : ℕ) (c : AuthContext)
    (p : Parsed (Bool × AuthContext))
    → serve_authenticated m s p ≡ ok (s', runs_procedure v n c)
    → (p ≡ accept (true, c)) × (n ≡ m) × (v ≡ negotiate_nfs_version m.header.vers)
unfolding serve_authenticated serve
serve_authenticated-runs m n s s' v c bad e = absurd (cc)
serve_authenticated-runs m n s s' v c reject e = absurd (cc)
serve_authenticated-runs m n s s' v c (accept (false, d)) e = absurd (ground arith)
serve_authenticated-runs m n s s' v c (accept (true, d)) e = ground arith

handle_rpc_call-runs :
    (now : ℕ) (m n : RpcMessage) (s s' : NfsServerSimple) (v : ℕ) (c : AuthContext)
    → handle_rpc_call now m s ≡ ok (s', runs_procedure v n c)
    → (n ≡ m)
      × (m.header.prog ≡ nfs_program)
      × (v ≡ negotiate_nfs_version m.header.vers)
      × (authenticate_request s.auth_manager m ≡ accept (true, c))
unfolding handle_rpc_call
handle_rpc_call-runs now m n s s' v c e =
    ground (arith, serve_authenticated-runs m n s s' v c (authenticate_request s.auth_manager m))

-- A procedure runs only on a message that was parsed and is a call of the NFS program, in the version
-- negotiated for it, and for the caller whom the authentication manager accepted, who is
-- authenticated.
pub process_rpc_message-runs :
    (now : ℕ) (raw : List ℕ) (s s' : NfsServerSimple) (v : ℕ) (m : RpcMessage) (c : AuthContext)
    → process_rpc_message now raw s ≡ ok (s', runs_procedure v m c)
    → (deserialize_message raw ≡ ok m)
      × (m.header.type ≡ call)
      × (m.header.prog ≡ nfs_program)
      × (v ≡ negotiate_nfs_version m.header.vers)
      × (authenticate_request s.auth_manager m ≡ accept (true, c))
      × (c.authenticated ≡ true)
unfolding process_rpc_message handle_parsed
process_rpc_message-runs now raw s s' v m c e = elim (Outcome-cases (deserialize_message raw)) [
  | inl (n, parsed) ↦ ground (
    arith,
    parsed,
    handle_rpc_call-runs now n m (record s { total_requests = inc s.total_requests }) s' v c,
    authenticate_request-authenticated s.auth_manager m c,
  )
  | inr (inl (x, threw)) ↦ absurd (ground (arith, threw))
  | inr (inr faulted) ↦ absurd (ground (arith, faulted))
]

abbrev pub runs : Effect → Bool
runs (runs_procedure v m c) = true
runs other = false

-- A valid call of the portmapper program, where the server has a portmapper.
abbrev pub for_portmapper : NfsServerSimple → Outcome RpcMessage → Bool
for_portmapper s (ok m) =
    is_some s.portmapper
    && (validate_message m && (m.header.type == call && m.header.prog == portmap_program))
for_portmapper s other = false

pub authenticate_request_total :
    (o : Option AuthManager) (m : RpcMessage)
    → (b : Bool) × (c : AuthContext) × (authenticate_request o m ≡ accept (b, c))
unfolding authenticate_request
authenticate_request_total none m = (false, no_context, refl)
authenticate_request_total (some a) m =
    let (r, c, h, _) = authenticate_total a m.header.cred.body m.header.verf.body no_context in
    (is_success r, c, rw (h, authenticate_request) refl)

serve_authenticated_counts :
    (m : RpcMessage) (s s' : NfsServerSimple) (eff : Effect) (p : Parsed (Bool × AuthContext))
    → serve_authenticated m s p ≡ ok (s', eff)
    → (s'.total_requests ≡ s.total_requests)
      × (s'.successful_requests
          ≡ (if runs eff then inc s.successful_requests else s.successful_requests))
      × (s'.failed_requests ≡ (if runs eff then s.failed_requests else inc s.failed_requests))
unfolding serve_authenticated serve
serve_authenticated_counts m s s' eff bad e = absurd (cc)
serve_authenticated_counts m s s' eff reject e = absurd (cc)
serve_authenticated_counts m s s' eff (accept (false, d)) e = ground arith
serve_authenticated_counts m s s' eff (accept (true, d)) e = ground arith

handle_portmapper_call_counts :
    (now : ℕ) (m : RpcMessage) (s : NfsServerSimple)
    → ((handle_portmapper_call now m s).total_requests ≡ s.total_requests)
      × ((handle_portmapper_call now m s).successful_requests ≡ s.successful_requests)
      × ((handle_portmapper_call now m s).failed_requests
          ≡ (if is_some s.portmapper then s.failed_requests else inc s.failed_requests))
unfolding handle_portmapper_call
handle_portmapper_call_counts now m s = elim (Option-cases s.portmapper) [
  | inl absent ↦ rw (absent, handle_portmapper_call) (refl, refl, refl)
  | inr (p, present) ↦ rw (present, handle_portmapper_call) (refl, refl, refl)
]

handle_rpc_call_counts :
    (now : ℕ) (m : RpcMessage) (s s' : NfsServerSimple) (eff : Effect)
    → handle_rpc_call now m s ≡ ok (s', eff)
    → (s'.total_requests ≡ s.total_requests)
      × (s'.successful_requests
          ≡ (if runs eff then inc s.successful_requests else s.successful_requests))
      × (s'.failed_requests ≡ (
          if runs eff || (is_some s.portmapper && m.header.prog == portmap_program)
          then s.failed_requests
          else inc s.failed_requests))
unfolding handle_rpc_call
handle_rpc_call_counts now m s s' eff e = ground (
  arith,
  handle_portmapper_call_counts now m s,
  serve_authenticated_counts m s s' eff (authenticate_request s.auth_manager m),
)

serve_authenticated_total :
    (m : RpcMessage) (s : NfsServerSimple) (b : Bool) (c : AuthContext)
    → (s' : NfsServerSimple) × (eff : Effect) × (serve_authenticated m s (accept (b, c))
        ≡ ok (s', eff))
unfolding serve_authenticated
serve_authenticated_total m s false c = (_, _, refl)
serve_authenticated_total m s true c =
    elim (Bool-cases (negotiate_nfs_version m.header.vers == 0)) [
      | inl none_fits ↦ rw none_fits (_, _, refl)
      | inr fits ↦ rw fits (_, _, refl)
    ]

handle_rpc_call_total :
    (now : ℕ) (m : RpcMessage) (s : NfsServerSimple)
    → (s' : NfsServerSimple) × (eff : Effect) × (handle_rpc_call now m s ≡ ok (s', eff))
unfolding handle_rpc_call
handle_rpc_call_total now m s = elim (Bool-cases (m.header.prog == portmap_program)) [
  | inl portmap ↦ rw portmap (_, _, refl)
  | inr other ↦ elim (Bool-cases (m.header.prog == nfs_program)) [
    | inr unknown ↦ rw (other, unknown) (_, _, refl)
    | inl nfs ↦
        let (b, c, h) = authenticate_request_total s.auth_manager m in
        let (s', eff, e) = serve_authenticated_total m s b c in (s', eff, rw (other, nfs, h) e)
  ]
]

handle_parsed_total :
    (now : ℕ) (s : NfsServerSimple) (o : Outcome RpcMessage)
    → o ≢ fault
    → (s' : NfsServerSimple) × (eff : Effect) × (handle_parsed now s o ≡ ok (s', eff))
unfolding handle_parsed
handle_parsed_total now s fault h = absurd (h refl)
handle_parsed_total now s (thrown e) h = (_, ends, refl)
handle_parsed_total now s (ok m) h = elim (Bool-cases (validate_message m)) [
  | inr invalid ↦ rw invalid (_, _, refl)
  | inl valid ↦ elim (Bool-cases (m.header.type == call)) [
    | inl calls ↦ let (s', eff, e) = handle_rpc_call_total now m s in (s', eff, rw (valid, calls) e)
    | inr replies ↦ rw (valid, replies) (_, _, refl)
  ]
]

-- Each message that does not fault counts as one request. It counts as successful exactly when a
-- procedure runs, whatever the procedure then does, and as failed otherwise, except that a valid call
-- of the portmapper counts as neither.
process_rpc_message_counts :
    (now : ℕ) (raw : List ℕ) (s s' : NfsServerSimple) (eff : Effect)
    → process_rpc_message now raw s ≡ ok (s', eff)
    → (s'.total_requests ≡ inc s.total_requests)
      × (s'.successful_requests
          ≡ (if runs eff then inc s.successful_requests else s.successful_requests))
      × (s'.failed_requests ≡ (
          if runs eff || for_portmapper s (deserialize_message raw)
          then s.failed_requests
          else inc s.failed_requests))
unfolding process_rpc_message handle_parsed
process_rpc_message_counts now raw s s' eff e = elim (Outcome-cases (deserialize_message raw)) [
  | inl (m, parsed) ↦ ground (
    arith,
    parsed,
    handle_rpc_call_counts now m (record s { total_requests = inc s.total_requests }) s' eff,
  )
  | inr (inl (x, threw)) ↦ ground (arith, threw)
  | inr (inr faulted) ↦ absurd (ground (arith, faulted))
]

-- A message faults the server only where its parser faults; otherwise processing it ends, with a
-- reply to send, a procedure to run, or neither.
process_rpc_message_total :
    (now : ℕ) (raw : List ℕ) (s : NfsServerSimple)
    → deserialize_message raw ≢ fault
    → (s' : NfsServerSimple) × (eff : Effect) × (process_rpc_message now raw s ≡ ok (s', eff))
unfolding process_rpc_message
process_rpc_message_total now raw s h =
    handle_parsed_total now (record s { total_requests = inc s.total_requests })
      (deserialize_message raw) h
