-- ===== src/Portmapper/Stats.antt =====
-- The statistics of the portmapper.
use simple_nfsd.Prelude.{ℕ, ◌+◌, ◌%◌, ◌<◌, ◌≡◌, ◌&&◌, some, if◌then◌else◌, arith}
use simple_nfsd.Rpc.{RpcMessage}
use simple_nfsd.Portmapper.{
  Portmapper, PortmapMapping, uint64_mod, service_key, register_service, unregister_service,
  handle_null, handle_set, handle_unset, handle_get_port, handle_dump, handle_call_it, dispatch,
  handle_rpc_call, deserialize_mapping, count_total, count_failure, inc,
}

-- Every request is counted once as a success or once as a failure; counters are uint64_t.
pub record Balanced (p : Portmapper) : Type 0 where
  pub sum :
      (p.stats.successful_requests + p.stats.failed_requests) % uint64_mod ≡ p.stats.total_requests
  pub success_fits : p.stats.successful_requests < uint64_mod
  pub failure_fits : p.stats.failed_requests < uint64_mod

-- What `dispatch` owes: one more success or failure, and the total as it was.
record Counted (p q : Portmapper) : Type 0 where
  one :
      (q.stats.successful_requests + q.stats.failed_requests) % uint64_mod
      ≡ (p.stats.successful_requests + p.stats.failed_requests + 1) % uint64_mod
  total : q.stats.total_requests ≡ p.stats.total_requests
  success_fits : p.stats.successful_requests < uint64_mod → q.stats.successful_requests < uint64_mod
  failure_fits : p.stats.failed_requests < uint64_mod → q.stats.failed_requests < uint64_mod

set-Counted : (now : ℕ) (m : RpcMessage) (p : Portmapper) → Counted p (handle_set now m p)
unfolding handle_set register_service
set-Counted now m p = ground arith

unset-Counted : (now : ℕ) (m : RpcMessage) (p : Portmapper) → Counted p (handle_unset now m p)
unfolding handle_unset unregister_service
unset-Counted now m p = ground arith

get_port-Counted : (m : RpcMessage) (p : Portmapper) → Counted p (handle_get_port m p)
unfolding handle_get_port
get_port-Counted m p = ground arith

call_it-Counted : (m : RpcMessage) (p : Portmapper) → Counted p (handle_call_it m p)
unfolding handle_call_it
call_it-Counted m p = ground arith

others-Counted :
    (m : RpcMessage) (p : Portmapper)
    → Counted p (handle_null m p) × Counted p (handle_dump m p) × Counted p (count_failure p)
unfolding handle_null handle_dump
others-Counted m p = (ground arith, ground arith, ground arith)

dispatch-Counted : (now : ℕ) (m : RpcMessage) (p : Portmapper) → Counted p (dispatch now m p)
unfolding dispatch
dispatch-Counted now m p =
    let (null, dump, unknown) = others-Counted m p in
    ground (
      arith,
      set-Counted now m p,
      unset-Counted now m p,
      get_port-Counted m p,
      call_it-Counted m p,
      null,
      dump,
      unknown,
    )

-- handleRpcCall keeps the number of requests the sum of the successful and the failed ones, whatever
-- the procedure and the message, and counts one request exactly when the portmapper is running.
pub handle_rpc_call-Balanced :
    (now : ℕ) (m : RpcMessage) (p : Portmapper)
    → Balanced p
    → Balanced (handle_rpc_call now m p)
      × ((handle_rpc_call now m p).stats.total_requests ≡ (
          if p.initialized && p.running
          then inc p.stats.total_requests
          else p.stats.total_requests))
unfolding handle_rpc_call
handle_rpc_call-Balanced now m p b =
    let d = dispatch-Counted now m (count_total p) in (ground (arith, d), ground (arith, d))

-- A SET request that is granted is counted twice in mappings_registered: by registerService, and
-- again by handleSet. So is an UNSET request in mappings_unregistered.
handle_set-counts_twice :
    (now : ℕ) (m : RpcMessage) (p : Portmapper) (e : PortmapMapping)
    → deserialize_mapping now m.payload ≡ some e
    → ((handle_set now m p).stats.mappings_registered ≡ (
        if (register_service now (e.program, e.version, e.protocol) e.port e.owner p).1
        then (p.stats.mappings_registered + 2) % uint64_mod
        else p.stats.mappings_registered))
      × ((handle_unset now m p).stats.mappings_unregistered ≡ (
          if (unregister_service (e.program, e.version, e.protocol) p).1
          then (p.stats.mappings_unregistered + 2) % uint64_mod
          else p.stats.mappings_unregistered))
unfolding handle_set handle_unset register_service unregister_service
handle_set-counts_twice now m p e h = (ground arith, ground arith)
