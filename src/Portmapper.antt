-- ===== src/Portmapper.antt =====
-- include/simple-nfsd/core/portmapper.hpp and src/simple-nfsd/core/portmapper.cpp: the registry of
-- RPC services, its procedures and its statistics.
-- A method holds the mutexes that it needs for as long as it uses them and is one step here. The
-- system clock is an argument `now`, in seconds. The procedures send no reply: the one
-- that handleNull builds is dropped. The log lines are left out. uint64_t counters wrap.
pub mod Registry
pub mod Invariant
pub mod Stats
pub mod Wire
mod Runs
use simple_nfsd.Prelude.{
  ℕ, ◌+◌, ◌-◌, ◌%◌, ◌^◌, ◌≡◌, ◌↔◌, String, Bool, true, false, ◌&&◌, ◌||◌, not, List, [], ◌∷◌, ◌++◌,
  Option, none, some, ltb, leb, ◌==◌, if◌then◌else◌, keep_if, length, drop, arith,
}
use simple_nfsd.Map.{Key, find, insert, erase, sweep, values}
use simple_nfsd.Bytes.{be32, bytes32}
use simple_nfsd.Rpc.{RpcMessage}

abbrev pub uint64_mod : ℕ
uint64_mod = 2 ^ 64

pub record PortmapMapping : Type 0 where
  pub program : ℕ
  pub version : ℕ
  pub protocol : ℕ
  pub port : ℕ
  pub owner : String
  pub timestamp : ℕ

pub record PortmapStats : Type 0 where
  pub total_requests : ℕ
  pub successful_requests : ℕ
  pub failed_requests : ℕ
  pub mappings_registered : ℕ
  pub mappings_unregistered : ℕ
  pub lookups_performed : ℕ

abbrev pub no_stats : PortmapStats
no_stats = record {
  total_requests = 0;
  successful_requests = 0;
  failed_requests = 0;
  mappings_registered = 0;
  mappings_unregistered = 0;
  lookups_performed = 0;
}

-- std::tuple of program, version and protocol, compared in that order.
abbrev pub Service : Type 0
Service = ℕ × ℕ × ℕ

abbrev pub same_service : Service → Service → Bool
same_service a b = a.0 == b.0 && (a.1 == b.1 && a.2 == b.2)

abbrev pub service_before : Service → Service → Bool
service_before a b = ltb a.0 b.0 || (a.0 == b.0 && (ltb a.1 b.1 || (a.1 == b.1 && ltb a.2 b.2)))

pub same_service_iff : (a b : Service) → (same_service a b ≡ true) ↔ (a ≡ b)
same_service_iff a b = ground arith

pub service_before_ne : (a b : Service) → service_before a b ≡ true → same_service a b ≡ false
service_before_ne a b h = ground arith

pub service_before_trans :
    (a b c : Service)
    → service_before a b ≡ true
    → service_before b c ≡ true
    → service_before a c ≡ true
service_before_trans a b c h k = ground arith

pub service_before_total :
    (a b : Service)
    → same_service a b ≡ false
    → service_before b a ≡ false
    → service_before a b ≡ true
service_before_total a b h k = ground arith

instance abbrev pub service_key : Key Service
service_key = record {
  same = same_service;
  before = service_before;
  same_iff = same_service_iff;
  before_ne = service_before_ne;
  before_trans = service_before_trans;
  before_total = service_before_total;
}

abbrev pub Mappings : Type 0
Mappings = List (Service × PortmapMapping)

pub record Portmapper : Type 0 where
  pub initialized : Bool
  pub running : Bool
  pub mappings : Mappings
  pub max_mappings : ℕ
  pub mapping_timeout : ℕ
  pub auto_cleanup_enabled : Bool
  pub stats : PortmapStats

unfoldable pub portmapper : Portmapper
portmapper = record {
  initialized = false;
  running = false;
  mappings = [];
  max_mappings = 1000;
  mapping_timeout = 3600;
  auto_cleanup_enabled = true;
  stats = no_stats;
}

unfoldable pub initialize : Portmapper → Portmapper × Bool
initialize p =
    if p.initialized
    then (p, true)
    else (record p { mappings = []; stats = no_stats; initialized = true; running = true }, true)

unfoldable pub shutdown : Portmapper → Portmapper
shutdown p =
    if not p.initialized
    then p
    else record p { running = false; mappings = []; initialized = false }

-- ++ on a counter.
abbrev pub inc : ℕ → ℕ
inc n = (n + 1) % uint64_mod

abbrev pub count_total : Portmapper → Portmapper
count_total p = record p {
  stats = record (p.stats) { total_requests = inc p.stats.total_requests };
}

abbrev pub count_success : Portmapper → Portmapper
count_success p = record p {
  stats = record (p.stats) { successful_requests = inc p.stats.successful_requests };
}

abbrev pub count_failure : Portmapper → Portmapper
count_failure p = record p {
  stats = record (p.stats) { failed_requests = inc p.stats.failed_requests };
}

abbrev pub count_registered : Portmapper → Portmapper
count_registered p = record p {
  stats = record (p.stats) { mappings_registered = inc p.stats.mappings_registered };
}

-- += n on the counter of unregistered mappings.
abbrev pub count_unregistered : ℕ → Portmapper → Portmapper
count_unregistered n p = record p {
  stats = record (p.stats) {
    mappings_unregistered = (p.stats.mappings_unregistered + n) % uint64_mod;
  };
}

abbrev pub count_lookup : Portmapper → Portmapper
count_lookup p = record p {
  stats = record (p.stats) { lookups_performed = inc p.stats.lookups_performed };
}

unfoldable pub is_valid_program : ℕ → Bool
is_valid_program program = ltb 0 program && leb program 0x7fff_ffff

unfoldable pub is_valid_version : ℕ → Bool
is_valid_version version = ltb 0 version && leb version 0x7fff_ffff

unfoldable pub is_valid_protocol : ℕ → Bool
is_valid_protocol protocol = protocol == 6 || protocol == 17

unfoldable pub is_valid_port : ℕ → Bool
is_valid_port port = ltb 0 port && leb port 65535

unfoldable pub register_service : ℕ → Service → ℕ → String → Portmapper → Portmapper × Bool
register_service now (program, version, protocol) port owner p =
    if not (is_valid_program program)
      || (not (is_valid_version version)
          || (not (is_valid_protocol protocol) || not (is_valid_port port)))
    then (p, false)
    else (if leb p.max_mappings (length p.mappings) then (p, false) else (
      count_registered (record p {
        mappings =
            insert (program, version, protocol)
              (record {
                program = program;
                version = version;
                protocol = protocol;
                port = port;
                owner = owner;
                timestamp = now;
              })
              p.mappings;
      }),
      true,
    ))

unfoldable pub unregister_service : Service → Portmapper → Portmapper × Bool
unregister_service key p = elim (find key p.mappings) [
  | none ↦ (p, false)
  | some m ↦ (count_unregistered 1 (record p { mappings = erase key p.mappings }), true)
]

-- The erasing loop of unregisterAll, with the number of entries it erases.
unfoldable pub erase_program : ℕ → ℕ → Mappings → Mappings × ℕ
erase_program program version [] = ([], 0)
erase_program program version ((k, v) ∷ m) =
    let (rest, removed) = erase_program program version m in
    if k.0 == program && k.1 == version then (rest, removed + 1) else ((k, v) ∷ rest, removed)

unfoldable pub unregister_all : ℕ → ℕ → Portmapper → Portmapper × Bool
unregister_all program version p =
    let (rest, removed) = erase_program program version p.mappings in
    let p' = record p { mappings = rest } in
    if ltb 0 removed then (count_unregistered removed p', true) else (p', false)

unfoldable pub get_port : Service → Portmapper → ℕ
get_port key p = elim (find key p.mappings) [ none ↦ 0 | some m ↦ m.port ]

unfoldable pub get_all_mappings : Portmapper → List PortmapMapping
get_all_mappings p = values p.mappings

unfoldable pub get_mappings_for_program : ℕ → Portmapper → List PortmapMapping
get_mappings_for_program program p = values (keep_if (λ e. e.0.0 == program) p.mappings)

unfoldable pub get_stats : Portmapper → PortmapStats
get_stats p = p.stats

unfoldable pub reset_stats : Portmapper → Portmapper
reset_stats p = record p { stats = no_stats }

unfoldable pub is_healthy : Portmapper → Bool
is_healthy p = p.initialized && p.running

unfoldable pub set_max_mappings : ℕ → Portmapper → Portmapper
set_max_mappings n p = record p { max_mappings = n }

unfoldable pub set_mapping_timeout : ℕ → Portmapper → Portmapper
set_mapping_timeout n p = record p { mapping_timeout = n }

unfoldable pub enable_auto_cleanup : Bool → Portmapper → Portmapper
enable_auto_cleanup on p = record p { auto_cleanup_enabled = on }

-- now - timestamp, in uint64_t.
abbrev pub age : ℕ → PortmapMapping → ℕ
age now m = (now + uint64_mod - m.timestamp) % uint64_mod

unfoldable pub cleanup_expired_mappings : ℕ → Portmapper → Portmapper
cleanup_expired_mappings now p =
    if not p.auto_cleanup_enabled
    then p
    else record p { mappings = (sweep (λ e. ltb p.mapping_timeout (age now e.1)) p.mappings).0 }

unfoldable pub serialize_mapping : PortmapMapping → List ℕ
serialize_mapping m =
    bytes32 m.program ++ (bytes32 m.version ++ (bytes32 m.protocol ++ bytes32 m.port))

unfoldable pub deserialize_mapping : ℕ → List ℕ → Option PortmapMapping
deserialize_mapping now bytes =
    if ltb (length bytes) 16
    then none
    else some (record {
      program = be32 bytes;
      version = be32 (drop 4 bytes);
      protocol = be32 (drop 8 bytes);
      port = be32 (drop 12 bytes);
      owner = "";
      timestamp = now;
    })

unfoldable pub handle_null : RpcMessage → Portmapper → Portmapper
handle_null message p = count_success p

-- What handleSet does with the result of registerService.
abbrev pub after_set : Portmapper × Bool → Portmapper
after_set (p, registered) =
    if registered then count_registered (count_success p) else count_failure p

unfoldable pub handle_set : ℕ → RpcMessage → Portmapper → Portmapper
handle_set now message p = elim (deserialize_mapping now message.payload) [
  | none ↦ count_failure p
  | some m ↦ after_set (register_service now (m.program, m.version, m.protocol) m.port m.owner p)
]

abbrev pub after_unset : Portmapper × Bool → Portmapper
after_unset (p, unregistered) =
    if unregistered then count_unregistered 1 (count_success p) else count_failure p

unfoldable pub handle_unset : ℕ → RpcMessage → Portmapper → Portmapper
handle_unset now message p = elim (deserialize_mapping now message.payload) [
  | none ↦ count_failure p
  | some m ↦ after_unset (unregister_service (m.program, m.version, m.protocol) p)
]

unfoldable pub handle_get_port : RpcMessage → Portmapper → Portmapper
handle_get_port message p =
    let bytes = message.payload in
    if ltb (length bytes) 12
    then count_failure p
    else (if not (get_port (be32 bytes, be32 (drop 4 bytes), be32 (drop 8 bytes)) p == 0)
        then count_lookup (count_success p)
        else count_failure p)

unfoldable pub handle_dump : RpcMessage → Portmapper → Portmapper
handle_dump message p = count_success p

-- The port is looked up for TCP; the call itself is not forwarded.
unfoldable pub handle_call_it : RpcMessage → Portmapper → Portmapper
handle_call_it message p =
    let bytes = message.payload in
    if ltb (length bytes) 12
    then count_failure p
    else (if get_port (be32 bytes, be32 (drop 4 bytes), 6) p == 0
        then count_failure p
        else count_success p)

-- The switch on the procedure number.
unfoldable pub dispatch : ℕ → RpcMessage → Portmapper → Portmapper
dispatch now message p =
    let proc = message.header.proc in
    if proc == 0
    then handle_null message p
    else (if proc == 1
        then handle_set now message p
        else (if proc == 2
            then handle_unset now message p
            else (if proc == 3
                then handle_get_port message p
                else (if proc == 4
                    then handle_dump message p
                    else (if proc == 5 then handle_call_it message p else count_failure p)))))

unfoldable pub handle_rpc_call : ℕ → RpcMessage → Portmapper → Portmapper
handle_rpc_call now message p =
    if not p.initialized || not p.running then p else dispatch now message (count_total p)
