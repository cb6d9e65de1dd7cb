-- ===== src/Portmapper/Invariant.antt =====
-- What the registry holds after any history of calls.
use simple_nfsd.Prelude.{
  ℕ, ◌<◌, ◌≡◌, refl, Bool, true, false, not, ◌&&◌, List, [], ◌∷◌, ◌==◌, arith, String, All,
  All-keep_if, keep_if, is_some, ◌⊎◌, Option-cases, inl, inr, Bool-cases,
}
use simple_nfsd.Map.{find, insert, erase, erase_if, Sorted}
use simple_nfsd.Map.Laws.{All-insert, All-find, Sorted-insert, Sorted-keep_if, sweep_lem}
use simple_nfsd.Rpc.{RpcMessage}
use simple_nfsd.Portmapper.Registry.{is_valid}
use simple_nfsd.Portmapper.{
  Portmapper, PortmapMapping, Service, Mappings, service_key, same_service, portmapper, initialize,
  shutdown, register_service, unregister_service, erase_program, unregister_all, get_port,
  cleanup_expired_mappings, count_total, after_set, after_unset, is_valid_port, dispatch,
  handle_rpc_call, handle_null, handle_set, handle_unset, handle_get_port, handle_dump,
  handle_call_it, reset_stats, deserialize_mapping, set_max_mappings, set_mapping_timeout,
  enable_auto_cleanup,
}

-- An entry stands under its own numbers, and they are valid.
abbrev pub is_entry : Service × PortmapMapping → Bool
is_entry (k, m) = same_service k (m.program, m.version, m.protocol) && is_valid k m.port

abbrev pub IsRegistry : Mappings → Type 0
IsRegistry m = Sorted m × All (λ e. is_entry e ≡ true) m

erase_program_lem :
    (program version : ℕ) (m : Mappings)
    → (erase_program program version m).0 ≡ erase_if (λ e. e.0.0 == program && e.0.1 == version) m
unfolding erase_program
erase_program_lem program version [] = refl
erase_program_lem program version (e ∷ m) = ground (arith, erase_program_lem program version m)

keep_if-IsRegistry :
    (t : Service × PortmapMapping → Bool) (m : Mappings) → IsRegistry m → IsRegistry (keep_if t m)
keep_if-IsRegistry t m v = (Sorted-keep_if t m v.0, All-keep_if (λ e. is_entry e ≡ true) t m v.1)

abbrev new_mapping : ℕ → Service → ℕ → String → PortmapMapping
new_mapping now (program, version, protocol) port owner = record {
  program = program;
  version = version;
  protocol = protocol;
  port = port;
  owner = owner;
  timestamp = now;
}

register_cases :
    (now : ℕ) (key : Service) (port : ℕ) (owner : String) (p : Portmapper)
    → ((register_service now key port owner p).0.mappings ≡ p.mappings)
      ⊎ ((is_valid key port ≡ true)
          × ((register_service now key port owner p).0.mappings
              ≡ insert key (new_mapping now key port owner) p.mappings))
unfolding register_service
register_cases now (program, version, protocol) port owner p = ground arith

new_mapping-is_entry :
    (now : ℕ) (key : Service) (port : ℕ) (owner : String)
    → is_valid key port ≡ true
    → is_entry (key, new_mapping now key port owner) ≡ true
new_mapping-is_entry now (program, version, protocol) port owner h = ground arith

register-IsRegistry :
    (now : ℕ) (key : Service) (port : ℕ) (owner : String) (p : Portmapper)
    → IsRegistry p.mappings
    → IsRegistry (register_service now key port owner p).0.mappings
register-IsRegistry now key port owner p v = elim (register_cases now key port owner p) [
  | inl same ↦ rw same v
  | inr (good, new) ↦ rw new (
    Sorted-insert key (new_mapping now key port owner) p.mappings v.0,
    All-insert (λ e. is_entry e ≡ true) key (new_mapping now key port owner) p.mappings
        (new_mapping-is_entry now key port owner good) v.1,
  )
]

unregister-IsRegistry :
    (key : Service) (p : Portmapper)
    → IsRegistry p.mappings
    → IsRegistry (unregister_service key p).0.mappings
unfolding unregister_service erase
unregister-IsRegistry key p v =
    ground (arith, v, keep_if-IsRegistry (λ e. not (same_service e.0 key)) p.mappings v)

unregister_all-IsRegistry :
    (program version : ℕ) (p : Portmapper)
    → IsRegistry p.mappings
    → IsRegistry (unregister_all program version p).0.mappings
unfolding unregister_all
unregister_all-IsRegistry program version p v = ground (
  arith,
  v,
  erase_program_lem program version p.mappings,
  keep_if-IsRegistry (λ e. not (e.0.0 == program && e.0.1 == version)) p.mappings v,
)

cleanup-IsRegistry :
    (now : ℕ) (p : Portmapper)
    → IsRegistry p.mappings
    → IsRegistry (cleanup_expired_mappings now p).mappings
unfolding cleanup_expired_mappings
cleanup-IsRegistry now p v = elim (Bool-cases p.auto_cleanup_enabled) [
  | inl on ↦ rw (on, sweep_lem) (keep_if-IsRegistry _ p.mappings v)
  | inr off ↦ rw off v
]

after_set-mappings : (r : Portmapper × Bool) → (after_set r).mappings ≡ r.0.mappings
after_set-mappings (p, true) = refl
after_set-mappings (p, false) = refl

after_unset-mappings : (r : Portmapper × Bool) → (after_unset r).mappings ≡ r.0.mappings
after_unset-mappings (p, true) = refl
after_unset-mappings (p, false) = refl

set-IsRegistry :
    (now : ℕ) (m : RpcMessage) (p : Portmapper)
    → IsRegistry p.mappings
    → IsRegistry (handle_set now m p).mappings
unfolding handle_set
set-IsRegistry now m p v = elim (Option-cases (deserialize_mapping now m.payload)) [
  | inl e ↦ rw (e, handle_set) v
  | inr (a, e) ↦
      rw (e, handle_set, after_set-mappings)
        (register-IsRegistry now (a.program, a.version, a.protocol) a.port a.owner p v)
]

unset-IsRegistry :
    (now : ℕ) (m : RpcMessage) (p : Portmapper)
    → IsRegistry p.mappings
    → IsRegistry (handle_unset now m p).mappings
unfolding handle_unset
unset-IsRegistry now m p v = elim (Option-cases (deserialize_mapping now m.payload)) [
  | inl e ↦ rw (e, handle_unset) v
  | inr (a, e) ↦
      rw (e, handle_unset, after_unset-mappings)
        (unregister-IsRegistry (a.program, a.version, a.protocol) p v)
]

-- A request changes the registry only by SET and by UNSET.
handle_rpc_call_cases :
    (now : ℕ) (m : RpcMessage) (p : Portmapper)
    → ((handle_rpc_call now m p).mappings ≡ p.mappings)
      ⊎ (((handle_rpc_call now m p).mappings ≡ (handle_set now m (count_total p)).mappings)
          ⊎ ((handle_rpc_call now m p).mappings ≡ (handle_unset now m (count_total p)).mappings))
unfolding handle_rpc_call dispatch handle_null handle_get_port handle_dump handle_call_it
handle_rpc_call_cases now m p = ground arith

rpc-IsRegistry :
    (now : ℕ) (m : RpcMessage) (p : Portmapper)
    → IsRegistry p.mappings
    → IsRegistry (handle_rpc_call now m p).mappings
rpc-IsRegistry now m p v = elim (handle_rpc_call_cases now m p) [
  | inl e ↦ rw e v
  | inr (inl e) ↦ rw e (set-IsRegistry now m (count_total p) v)
  | inr (inr e) ↦ rw e (unset-IsRegistry now m (count_total p) v)
]

-- The calls that may change the portmapper.
pub data Call : Type 0 where
  initializes shuts_down resets cleans_up : Call
  registers : Service → ℕ → String → Call
  unregisters : Service → Call
  unregisters_all : ℕ → ℕ → Call
  sets_max sets_timeout : ℕ → Call
  sets_cleanup : Bool → Call
  receives : RpcMessage → Call

unfoldable pub step : ℕ → Call → Portmapper → Portmapper
step now initializes p = (initialize p).0
step now shuts_down p = shutdown p
step now resets p = reset_stats p
step now cleans_up p = cleanup_expired_mappings now p
step now (registers key port owner) p = (register_service now key port owner p).0
step now (unregisters key) p = (unregister_service key p).0
step now (unregisters_all program version) p = (unregister_all program version p).0
step now (sets_max n) p = set_max_mappings n p
step now (sets_timeout n) p = set_mapping_timeout n p
step now (sets_cleanup on) p = enable_auto_cleanup on p
step now (receives m) p = handle_rpc_call now m p

step-IsRegistry :
    (now : ℕ) (c : Call) (p : Portmapper)
    → IsRegistry p.mappings
    → IsRegistry (step now c p).mappings
unfolding step initialize shutdown reset_stats set_max_mappings set_mapping_timeout
    enable_auto_cleanup
step-IsRegistry now initializes p v = elim (Bool-cases p.initialized) [
  | inl e ↦ rw e v
  | inr e ↦ rw e (tt, tt)
]
step-IsRegistry now shuts_down p v = elim (Bool-cases p.initialized) [
  | inl e ↦ rw e (tt, tt)
  | inr e ↦ rw e v
]
step-IsRegistry now resets p v = v
step-IsRegistry now cleans_up p v = cleanup-IsRegistry now p v
step-IsRegistry now (registers key port owner) p v = register-IsRegistry now key port owner p v
step-IsRegistry now (unregisters key) p v = unregister-IsRegistry key p v
step-IsRegistry now (unregisters_all program version) p v =
    unregister_all-IsRegistry program version p v
step-IsRegistry now (sets_max n) p v = v
step-IsRegistry now (sets_timeout n) p v = v
step-IsRegistry now (sets_cleanup on) p v = v
step-IsRegistry now (receives m) p v = rpc-IsRegistry now m p v

-- A history: each call with the time at which it is made.
unfoldable pub run : List (ℕ × Call) → Portmapper → Portmapper
run [] p = p
run ((now, c) ∷ cs) p = run cs (step now c p)

run-IsRegistry_from :
    (cs : List (ℕ × Call)) (p : Portmapper) → IsRegistry p.mappings → IsRegistry (run cs p).mappings
unfolding run
run-IsRegistry_from [] p v = v
run-IsRegistry_from ((now, c) ∷ cs) p v =
    run-IsRegistry_from cs (step now c p) (step-IsRegistry now c p v)

-- After any history of calls, at any times, of a new portmapper the registry has one entry for each
-- service, in order, and every entry stands under its own program, version and protocol, with
-- numbers that registerService accepts.
pub run-IsRegistry : (cs : List (ℕ × Call)) → IsRegistry (run cs portmapper).mappings
run-IsRegistry cs = run-IsRegistry_from cs portmapper start
  where
    start : IsRegistry portmapper.mappings
    start = unfold portmapper in (tt, tt)

entry-port : (key : Service) (m : PortmapMapping) → is_entry (key, m) ≡ true → 0 < m.port
unfolding is_valid_port
entry-port (program, version, protocol) m h = ground arith

-- After any history getPort answers 0 exactly for the services that are not registered.
get_port-run :
    (cs : List (ℕ × Call)) (key : Service)
    → (get_port key (run cs portmapper) == 0)
      ≡ not (is_some (find key (run cs portmapper).mappings))
unfolding get_port
get_port-run cs key =
    let p = run cs portmapper in
    elim (Option-cases (find key p.mappings)) [
      | inl e ↦ rw (e, get_port) refl
      | inr (m, e) ↦
          let pos : 0 < m.port =
            entry-port key m
              (All-find (λ e. is_entry e ≡ true) key p.mappings m (run-IsRegistry cs).1 e) in
          rw (e, get_port) (ground arith)
    ]
