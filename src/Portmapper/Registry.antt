-- ===== src/Portmapper/Registry.antt =====
-- The registry: what registration, removal and lookup do to one another, and what it always holds.
use simple_nfsd.Prelude.{
  ℕ, ◌≡◌, Bool, ◌&&◌, none, ltb, if◌then◌else◌, arith, String, length, is_some,
}
use simple_nfsd.Map.{find}
use simple_nfsd.Map.Laws.{find-insert, find-erase}
use simple_nfsd.Portmapper.{
  Portmapper, Service, service_key, same_service, register_service, unregister_service, get_port,
  is_valid_program, is_valid_version, is_valid_protocol, is_valid_port,
}

-- What registerService accepts.
abbrev pub is_valid : Service → ℕ → Bool
is_valid (program, version, protocol) port =
    is_valid_program program
    && (is_valid_version version && (is_valid_protocol protocol && is_valid_port port))

-- registerService succeeds exactly when its numbers are valid and the registry is below its limit.
-- Then lookups of the service give the new port; all other lookups, and all lookups after a refusal,
-- are as before.
get_port-register_service :
    (now : ℕ) (key other : Service) (port : ℕ) (owner : String) (p : Portmapper)
    → ((register_service now key port owner p).1
        ≡ is_valid key port && ltb (length p.mappings) p.max_mappings)
      × (get_port other (register_service now key port owner p).0 ≡ (
          if (register_service now key port owner p).1 && same_service key other
          then port
          else get_port other p))
unfolding register_service get_port
get_port-register_service now (program, version, protocol) other port owner p = (
  ground arith,
  ground (
    arith,
    find-insert (program, version, protocol) other
        (record {
          program = program;
          version = version;
          protocol = protocol;
          port = port;
          owner = owner;
          timestamp = now;
        })
        p.mappings,
  ),
)

-- unregisterService answers whether the service was registered; afterwards it is not, and every
-- other lookup is as before.
find-unregister_service :
    (key other : Service) (p : Portmapper)
    → ((unregister_service key p).1 ≡ is_some (find key p.mappings))
      × (find other (unregister_service key p).0.mappings
          ≡ (if same_service key other then none else find other p.mappings))
unfolding unregister_service
find-unregister_service key other p =
    (ground arith, ground (arith, find-erase key other p.mappings, service_key.same_iff key other))
