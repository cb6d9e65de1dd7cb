-- ===== src/Rpc/Replies.antt =====
-- The messages that the library builds, its sizes and its validation.
use simple_nfsd.Prelude.{
  ℕ, ◌+◌, ◌<◌, ◌≡◌, refl, false, not, ◌&&◌, List, [], ◌++◌, ◌==◌, ltb, if◌then◌else◌, length,
  length-append, arith,
}
use simple_nfsd.Bytes.{thrown, fault, message_too_short, words, read_uint32}
use simple_nfsd.Bytes.Laws.{align4_lem}
use simple_nfsd.Rpc.{
  RpcAuthData, RpcMessage, create_call, create_reply, create_error_reply, validate_message,
  get_message_size, deserialize_message, deserialize_body, read_opaque, header_words,
}
use simple_nfsd.Rpc.Layout.{layout, opaque_layout, IsMessage}
use simple_nfsd.Rpc.RoundTrip.{length-opaque}

-- A call that createCall builds passes validateMessage exactly when its program and its version are
-- not 0; no reply of createReply or createErrorReply passes.
validate_built :
    (xid program version procedure state error : ℕ) (args : List ℕ) (auth : RpcAuthData)
    → (validate_message (create_call xid program version procedure args auth)
        ≡ not (program == 0) && not (version == 0))
      × (validate_message (create_reply xid state args auth) ≡ false)
      × (validate_message (create_error_reply xid error) ≡ false)
unfolding validate_message create_call create_reply create_error_reply
validate_built xid program version procedure state error args auth = (ground arith, refl, refl)

-- getMessageSize is four bytes less than the byte form of the message.
get_message_size-layout :
    (m : RpcMessage) → IsMessage m → length (layout m) ≡ get_message_size m + 4
unfolding get_message_size
get_message_size-layout m v = omega (
  arith,
  align4_lem,
  v.cred_true.length_true,
  v.verf_true.length_true,
  v.cred_true.length_fits,
  v.verf_true.length_fits,
  length-opaque (words (header_words m.header)) m.header.cred,
  length-opaque [] m.header.cred,
  length-opaque [] m.header.verf,
  length-append (words (header_words m.header))
      (opaque_layout m.header.cred ++ (opaque_layout m.header.verf ++ m.payload)),
  length-append (opaque_layout m.header.cred) (opaque_layout m.header.verf ++ m.payload),
  length-append (opaque_layout m.header.verf) m.payload,
)

-- A message of fewer than 28 bytes is refused; one of 28 to 31 bytes passes that test and is read
-- beyond its end.
deserialize_short :
    (bytes : List ℕ)
    → length bytes < 32
    → deserialize_message bytes
      ≡ (if ltb (length bytes) 28 then thrown message_too_short else fault)
unfolding deserialize_message deserialize_body read_opaque read_uint32
deserialize_short bytes h = ground arith
