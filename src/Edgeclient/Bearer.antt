-- ===== src/Edgeclient/Bearer.antt =====
-- NewRPC of edgeclient/client.go, and the interceptor that puts the token on every call.
use rook_host.Base.{◌≡◌, refl, ◌++◌, some, if◌then◌else◌}
use rook_host.Base.Bytes.{Bytes, codes, str_eq}
use rook_host.Base.Map.{Map, insert}
use rook_host.Rpc.{CallKind, unary, server_stream}
use rook_host.Rpc.Edge.{
  EdgeMethod, EdgeServiceClient, new_edge_service_client, edge_call, edge_procedure, edge_handler,
}
use rook_host.Rpc.Routes.{Arrives, edge_call-Arrives, edge_handler-procedure}

abbrev pub authorization : Bytes
authorization = codes "Authorization"

-- WrapUnary: the header is set before the call goes on.
unfoldable pub wrap_unary : Bytes → Map Bytes → Map Bytes
wrap_unary token header = insert authorization (codes "Bearer " ++ token) header

-- WrapStreamingClient: the header of the connection is set once it is made.
unfoldable pub wrap_streaming_client : Bytes → Map Bytes → Map Bytes
wrap_streaming_client token header = insert authorization (codes "Bearer " ++ token) header

-- WrapStreamingHandler
abbrev pub wrap_streaming_handler : Bytes → Map Bytes → Map Bytes
wrap_streaming_handler token header = header

-- NewRPC
pub record EdgeRpc : Type 0 where
  pub client : EdgeServiceClient
  pub token : Bytes

unfoldable pub new_rpc : Bytes → Bytes → EdgeRpc
unfolding new_edge_service_client
new_rpc base_url token = record { client = new_edge_service_client base_url; token = token }

-- connect asks the interceptor's method for the kind of the call.
abbrev intercepted : CallKind → Bytes → Map Bytes → Map Bytes
intercepted unary token header = wrap_unary token header
intercepted server_stream token header = wrap_streaming_client token header

-- One call: its kind, its URL and its header.
unfoldable pub rpc_call : EdgeRpc → EdgeMethod → Map Bytes → (CallKind × Bytes) × Map Bytes
unfolding edge_call wrap_unary wrap_streaming_client
rpc_call rpc m header =
    let call = edge_call rpc.client m in (call, intercepted call.0 rpc.token header)

intercepted-header :
    (kind : CallKind) (token : Bytes) (header : Map Bytes)
    → intercepted kind token header ≡ insert authorization (codes "Bearer " ++ token) header
unfolding wrap_unary wrap_streaming_client
intercepted-header unary token header = refl
intercepted-header server_stream token header = refl

-- Every call of the edge client, of one response or a stream of them, goes out with the token in its
-- Authorization header and every other header as it was. It goes to the path below the base URL
-- where the edge handler finds the method that was called, as a call of the same kind, and the
-- handler finds the method on no other path.
pub calls_carry_token :
    (base token : Bytes) (m : EdgeMethod) (header : Map Bytes)
    → (let (call, header') = rpc_call (new_rpc base token) m header in
        Arrives edge_handler base (edge_procedure m) m call
        × ((path : Bytes) (kind : CallKind)
            → edge_handler path ≡ some (kind, m)
            → path ≡ edge_procedure m)
        × ((name : Bytes)
            → header' name ≡ (
                if str_eq authorization name
                then some (codes "Bearer " ++ token)
                else header name)))
unfolding rpc_call new_rpc
calls_carry_token base token m header = (
  edge_call-Arrives base m,
  λ path kind h. edge_handler-procedure path kind m h,
  λ name.
      (λ i. intercepted-header (edge_call (new_edge_service_client base) m).0 token header i name),
)
