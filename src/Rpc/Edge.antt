-- ===== src/Rpc/Edge.antt =====
-- gen/rook/edge/v1/edgev1connect: the generated routing of EdgeService.
use rook_host.Base.{Option, none, some, ◌++◌, if◌then◌else◌}
use rook_host.Base.Bytes.{Bytes, codes, str_eq}
use rook_host.Rpc.{CallKind, unary, server_stream, trim_slashes, not_implemented}

-- The methods of rook.edge.v1.EdgeService.
pub data EdgeMethod : Type 0 where
  register_device sync_edge ack_command submit_events renew_leases watch_edge
        resolve_artifact_upload :
      EdgeMethod

-- The Procedure constants.
unfoldable pub edge_procedure : EdgeMethod → Bytes
edge_procedure register_device = codes "/rook.edge.v1.EdgeService/RegisterDevice"
edge_procedure sync_edge = codes "/rook.edge.v1.EdgeService/SyncEdge"
edge_procedure ack_command = codes "/rook.edge.v1.EdgeService/AckCommand"
edge_procedure submit_events = codes "/rook.edge.v1.EdgeService/SubmitEvents"
edge_procedure renew_leases = codes "/rook.edge.v1.EdgeService/RenewLeases"
edge_procedure watch_edge = codes "/rook.edge.v1.EdgeService/WatchEdge"
edge_procedure resolve_artifact_upload = codes "/rook.edge.v1.EdgeService/ResolveArtifactUpload"

-- The client: the URL that each of its connect clients calls.
pub record EdgeServiceClient : Type 0 where
  pub register_device_url : Bytes
  pub sync_edge_url : Bytes
  pub ack_command_url : Bytes
  pub submit_events_url : Bytes
  pub renew_leases_url : Bytes
  pub watch_edge_url : Bytes
  pub resolve_artifact_upload_url : Bytes

unfoldable pub new_edge_service_client : Bytes → EdgeServiceClient
unfolding edge_procedure
new_edge_service_client base_url =
    let base = trim_slashes base_url in
    record {
      register_device_url = base ++ edge_procedure register_device;
      sync_edge_url = base ++ edge_procedure sync_edge;
      ack_command_url = base ++ edge_procedure ack_command;
      submit_events_url = base ++ edge_procedure submit_events;
      renew_leases_url = base ++ edge_procedure renew_leases;
      watch_edge_url = base ++ edge_procedure watch_edge;
      resolve_artifact_upload_url = base ++ edge_procedure resolve_artifact_upload;
    }

-- The client's methods: the kind of the call, and where it goes.
unfoldable pub edge_call : EdgeServiceClient → EdgeMethod → CallKind × Bytes
edge_call c register_device = (unary, c.register_device_url)
edge_call c sync_edge = (unary, c.sync_edge_url)
edge_call c ack_command = (unary, c.ack_command_url)
edge_call c submit_events = (unary, c.submit_events_url)
edge_call c renew_leases = (unary, c.renew_leases_url)
edge_call c watch_edge = (server_stream, c.watch_edge_url)
edge_call c resolve_artifact_upload = (unary, c.resolve_artifact_upload_url)

abbrev pub edge_pattern : Bytes
edge_pattern = codes "/rook.edge.v1.EdgeService/"

-- The handler: the switch over the path, to a handler of the kind that was built for the method.
unfoldable pub edge_handler : Bytes → Option (CallKind × EdgeMethod)
edge_handler path =
    if str_eq path (edge_procedure register_device)
    then some (unary, register_device)
    else if str_eq path (edge_procedure sync_edge)
    then some (unary, sync_edge)
    else if str_eq path (edge_procedure ack_command)
    then some (unary, ack_command)
    else if str_eq path (edge_procedure submit_events)
    then some (unary, submit_events)
    else if str_eq path (edge_procedure renew_leases)
    then some (unary, renew_leases)
    else if str_eq path (edge_procedure watch_edge)
    then some (server_stream, watch_edge)
    else if str_eq path (edge_procedure resolve_artifact_upload)
    then some (unary, resolve_artifact_upload)
    else none

-- What the methods of UnimplementedEdgeServiceHandler answer.
unfoldable pub edge_unimplemented : EdgeMethod → Bytes
edge_unimplemented register_device =
    not_implemented (codes "rook.edge.v1.EdgeService.RegisterDevice")
edge_unimplemented sync_edge = not_implemented (codes "rook.edge.v1.EdgeService.SyncEdge")
edge_unimplemented ack_command = not_implemented (codes "rook.edge.v1.EdgeService.AckCommand")
edge_unimplemented submit_events = not_implemented (codes "rook.edge.v1.EdgeService.SubmitEvents")
edge_unimplemented renew_leases = not_implemented (codes "rook.edge.v1.EdgeService.RenewLeases")
edge_unimplemented watch_edge = not_implemented (codes "rook.edge.v1.EdgeService.WatchEdge")
edge_unimplemented resolve_artifact_upload =
    not_implemented (codes "rook.edge.v1.EdgeService.ResolveArtifactUpload")
