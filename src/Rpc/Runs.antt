-- ===== src/Rpc/Runs.antt =====
-- Concrete messages, and the theorems at concrete inputs.
use simple_nfsd.Prelude.{◌+◌, ◌≡◌, refl, [], ◌∷◌, arith}
use simple_nfsd.Bytes.{ok, fault}
use simple_nfsd.Rpc.{
  RpcAuthData, RpcMessage, AuthSysCredentials, total_size, serialize_into, serialize_message,
  deserialize_message, create_call,
}
use simple_nfsd.Rpc.Layout.{layout, IsMessage}
use simple_nfsd.Rpc.Overflow.{serialize_message-fault}
use simple_nfsd.Rpc.RoundTrip.{deserialize_message-layout, serialize_into-layout}
use simple_nfsd.Rpc.AuthSys.{IsCredentials}

abbrev empty_auth : RpcAuthData
empty_auth = record { flavor = 0; body = [] }

abbrev null_call : RpcMessage
unfolding create_call
null_call = create_call 7 100003 3 0 (1 ∷ 2 ∷ []) (record { flavor = 1; body = 5 ∷ 6 ∷ 7 ∷ [] })

null_call-IsMessage : IsMessage null_call
unfolding null_call
null_call-IsMessage = record {
  words_fit = omega arith;
  cred_true = record { flavor_fits = omega arith; length_fits = omega arith; length_true = refl };
  verf_true = record { flavor_fits = omega arith; length_fits = omega arith; length_true = refl };
}

abbrev root : AuthSysCredentials
root = record {
  stamp = 1;
  machinename = 104 ∷ 111 ∷ 115 ∷ 116 ∷ [];
  uid = 0;
  gid = 0;
  gids = 4 ∷ 5 ∷ [];
}

root-IsCredentials : IsCredentials root
root-IsCredentials = record {
  stamp_fits = omega arith;
  name_fits = omega arith;
  uid_fits = omega arith;
  gid_fits = omega arith;
  count_fits = omega arith;
  gids_fit = omega arith;
}

serialize_message-fault_example : serialize_message null_call ≡ fault
serialize_message-fault_example = serialize_message-fault null_call

deserialize_message-layout_example : deserialize_message (layout null_call) ≡ ok null_call
deserialize_message-layout_example = deserialize_message-layout null_call null_call-IsMessage

serialize_into-layout_example :
    serialize_into (total_size null_call + 4) null_call ≡ ok (layout null_call)
serialize_into-layout_example = serialize_into-layout null_call null_call-IsMessage
