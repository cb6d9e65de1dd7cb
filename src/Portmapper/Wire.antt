-- ===== src/Portmapper/Wire.antt =====
-- The XDR form of a mapping.
use simple_nfsd.Prelude.{ℕ, ◌≡◌, List, ◌++◌, some, arith}
use simple_nfsd.Bytes.{bytes32, IsU32}
use simple_nfsd.Bytes.Laws.{be32-bytes32}
use simple_nfsd.Portmapper.{PortmapMapping, serialize_mapping, deserialize_mapping}

-- The four numbers of the mapping are uint32_t.
pub record IsWire (m : PortmapMapping) : Type 0 where
  pub program_fits : IsU32 m.program
  pub version_fits : IsU32 m.version
  pub protocol_fits : IsU32 m.protocol
  pub port_fits : IsU32 m.port

-- A mapping that was serialized is read back, also with bytes behind it; its owner and its timestamp
-- are not kept: they become empty and the time of reading.
deserialize-serialize_mapping :
    (now : ℕ) (m : PortmapMapping) (rest : List ℕ)
    → IsWire m
    → deserialize_mapping now (serialize_mapping m ++ rest)
      ≡ some (record m { owner = ""; timestamp = now })
unfolding serialize_mapping deserialize_mapping
deserialize-serialize_mapping now m rest v = ground (
  arith,
  be32-bytes32 m.program (bytes32 m.version ++ (bytes32 m.protocol ++ (bytes32 m.port ++ rest))),
  be32-bytes32 m.version (bytes32 m.protocol ++ (bytes32 m.port ++ rest)),
  be32-bytes32 m.protocol (bytes32 m.port ++ rest),
  be32-bytes32 m.port rest,
)
