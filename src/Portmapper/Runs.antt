-- ===== src/Portmapper/Runs.antt =====
-- Concrete runs of the portmapper, and its theorems at concrete inputs.
use simple_nfsd.Prelude.{ℕ, ◌≡◌, refl, ◌&&◌, List, [], ◌∷◌, some, arith, if◌then◌else◌}
use simple_nfsd.Map.{find, insert}
use simple_nfsd.Bytes.{be32}
use simple_nfsd.Rpc.{RpcMessage, create_call}
use simple_nfsd.Portmapper.{
  Portmapper, PortmapMapping, Service, service_key, same_service, portmapper, initialize,
  register_service, unregister_service, get_port, handle_set, handle_unset, handle_rpc_call,
  serialize_mapping, deserialize_mapping, inc, uint64_mod, is_valid_program, is_valid_version,
  is_valid_protocol, is_valid_port,
}
use simple_nfsd.Portmapper.Invariant.{
  Call, initializes, registers, receives, run, IsRegistry, run-IsRegistry,
}
use simple_nfsd.Portmapper.Stats.{Balanced, handle_rpc_call-Balanced}

abbrev nfs3 : Service
nfs3 = (100003, 3, 6)

abbrev nfs3_mapping : PortmapMapping
nfs3_mapping = record {
  program = 100003;
  version = 3;
  protocol = 6;
  port = 2049;
  owner = "";
  timestamp = 50;
}

abbrev started : Portmapper
unfolding initialize portmapper
started = (initialize portmapper).0

abbrev set_call : RpcMessage
unfolding serialize_mapping create_call
set_call =
    create_call 7 100000 2 1 (serialize_mapping nfs3_mapping) (record { flavor = 0; body = [] })

registered : get_port nfs3 (handle_rpc_call 50 set_call started) ≡ 2049
unfolding started set_call handle_rpc_call simple_nfsd.Portmapper.dispatch handle_set
    deserialize_mapping register_service is_valid_program is_valid_version is_valid_protocol
    is_valid_port be32 get_port find insert
registered = refl

set_call_mapping : deserialize_mapping 50 set_call.payload ≡ some nfs3_mapping
unfolding set_call deserialize_mapping be32
set_call_mapping = refl

abbrev history : List (ℕ × Call)
history = (1, initializes) ∷ (2, registers nfs3 2049 "nfsd") ∷ (50, receives set_call) ∷ []

run-IsRegistry_example : IsRegistry (run history portmapper).mappings
run-IsRegistry_example = run-IsRegistry history

started-Balanced : Balanced started
unfolding started
started-Balanced = record { sum = refl; success_fits = omega arith; failure_fits = omega arith }

handle_rpc_call-Balanced_example :
    Balanced (handle_rpc_call 50 set_call started)
    × ((handle_rpc_call 50 set_call started).stats.total_requests ≡ (
        if started.initialized && started.running
        then inc started.stats.total_requests
        else started.stats.total_requests))
handle_rpc_call-Balanced_example = handle_rpc_call-Balanced 50 set_call started started-Balanced
