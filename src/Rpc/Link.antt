-- ===== src/Rpc/Link.antt =====
-- gen/rook/link/v1/linkv1connect: the generated routing of HostService and LinkService.
use rook_host.Base.{Option, none, some, ◌++◌, if◌then◌else◌}
use rook_host.Base.Bytes.{Bytes, codes, str_eq}
use rook_host.Rpc.{CallKind, unary, server_stream, trim_slashes, not_implemented}

-- The methods of rook.link.v1.HostService.
pub data HostMethod : Type 0 where
  get_host_info pair challenge authenticate : HostMethod

-- The Procedure constants.
unfoldable pub host_procedure : HostMethod → Bytes
host_procedure get_host_info = codes "/rook.link.v1.HostService/GetHostInfo"
host_procedure pair = codes "/rook.link.v1.HostService/Pair"
host_procedure challenge = codes "/rook.link.v1.HostService/Challenge"
host_procedure authenticate = codes "/rook.link.v1.HostService/Authenticate"

-- The client: the URL that each of its connect clients calls.
pub record HostServiceClient : Type 0 where
  pub get_host_info_url : Bytes
  pub pair_url : Bytes
  pub challenge_url : Bytes
  pub authenticate_url : Bytes

unfoldable pub new_host_service_client : Bytes → HostServiceClient
unfolding host_procedure
new_host_service_client base_url =
    let base = trim_slashes base_url in
    record {
      get_host_info_url = base ++ host_procedure get_host_info;
      pair_url = base ++ host_procedure pair;
      challenge_url = base ++ host_procedure challenge;
      authenticate_url = base ++ host_procedure authenticate;
    }

-- The client's methods: the kind of the call, and where it goes.
unfoldable pub host_call : HostServiceClient → HostMethod → CallKind × Bytes
host_call c get_host_info = (unary, c.get_host_info_url)
host_call c pair = (unary, c.pair_url)
host_call c challenge = (unary, c.challenge_url)
host_call c authenticate = (unary, c.authenticate_url)

abbrev pub host_pattern : Bytes
host_pattern = codes "/rook.link.v1.HostService/"

-- The handler: the switch over the path, to a handler of the kind that was built for the method.
unfoldable pub host_handler : Bytes → Option (CallKind × HostMethod)
host_handler path =
    if str_eq path (host_procedure get_host_info)
    then some (unary, get_host_info)
    else if str_eq path (host_procedure pair)
    then some (unary, pair)
    else if str_eq path (host_procedure challenge)
    then some (unary, challenge)
    else if str_eq path (host_procedure authenticate)
    then some (unary, authenticate)
    else none

-- What the methods of UnimplementedHostServiceHandler answer.
unfoldable pub host_unimplemented : HostMethod → Bytes
host_unimplemented get_host_info = not_implemented (codes "rook.link.v1.HostService.GetHostInfo")
host_unimplemented pair = not_implemented (codes "rook.link.v1.HostService.Pair")
host_unimplemented challenge = not_implemented (codes "rook.link.v1.HostService.Challenge")
host_unimplemented authenticate = not_implemented (codes "rook.link.v1.HostService.Authenticate")

-- The methods of rook.link.v1.LinkService.
pub data LinkMethod : Type 0 where
  get_status watch_status submit_answer submit_command get_digest watch_pane : LinkMethod

-- The Procedure constants.
unfoldable pub link_procedure : LinkMethod → Bytes
link_procedure get_status = codes "/rook.link.v1.LinkService/GetStatus"
link_procedure watch_status = codes "/rook.link.v1.LinkService/WatchStatus"
link_procedure submit_answer = codes "/rook.link.v1.LinkService/SubmitAnswer"
link_procedure submit_command = codes "/rook.link.v1.LinkService/SubmitCommand"
link_procedure get_digest = codes "/rook.link.v1.LinkService/GetDigest"
link_procedure watch_pane = codes "/rook.link.v1.LinkService/WatchPane"

-- The client: the URL that each of its connect clients calls.
pub record LinkServiceClient : Type 0 where
  pub get_status_url : Bytes
  pub watch_status_url : Bytes
  pub submit_answer_url : Bytes
  pub submit_command_url : Bytes
  pub get_digest_url : Bytes
  pub watch_pane_url : Bytes

unfoldable pub new_link_service_client : Bytes → LinkServiceClient
unfolding link_procedure
new_link_service_client base_url =
    let base = trim_slashes base_url in
    record {
      get_status_url = base ++ link_procedure get_status;
      watch_status_url = base ++ link_procedure watch_status;
      submit_answer_url = base ++ link_procedure submit_answer;
      submit_command_url = base ++ link_procedure submit_command;
      get_digest_url = base ++ link_procedure get_digest;
      watch_pane_url = base ++ link_procedure watch_pane;
    }

-- The client's methods: the kind of the call, and where it goes.
unfoldable pub link_call : LinkServiceClient → LinkMethod → CallKind × Bytes
link_call c get_status = (unary, c.get_status_url)
link_call c watch_status = (server_stream, c.watch_status_url)
link_call c submit_answer = (unary, c.submit_answer_url)
link_call c submit_command = (unary, c.submit_command_url)
link_call c get_digest = (unary, c.get_digest_url)
link_call c watch_pane = (server_stream, c.watch_pane_url)

abbrev pub link_pattern : Bytes
link_pattern = codes "/rook.link.v1.LinkService/"

-- The handler: the switch over the path, to a handler of the kind that was built for the method.
unfoldable pub link_handler : Bytes → Option (CallKind × LinkMethod)
link_handler path =
    if str_eq path (link_procedure get_status)
    then some (unary, get_status)
    else if str_eq path (link_procedure watch_status)
    then some (server_stream, watch_status)
    else if str_eq path (link_procedure submit_answer)
    then some (unary, submit_answer)
    else if str_eq path (link_procedure submit_command)
    then some (unary, submit_command)
    else if str_eq path (link_procedure get_digest)
    then some (unary, get_digest)
    else if str_eq path (link_procedure watch_pane)
    then some (server_stream, watch_pane)
    else none

-- What the methods of UnimplementedLinkServiceHandler answer.
unfoldable pub link_unimplemented : LinkMethod → Bytes
link_unimplemented get_status = not_implemented (codes "rook.link.v1.LinkService.GetStatus")
link_unimplemented watch_status = not_implemented (codes "rook.link.v1.LinkService.WatchStatus")
link_unimplemented submit_answer = not_implemented (codes "rook.link.v1.LinkService.SubmitAnswer")
link_unimplemented submit_command = not_implemented (codes "rook.link.v1.LinkService.SubmitCommand")
link_unimplemented get_digest = not_implemented (codes "rook.link.v1.LinkService.GetDigest")
link_unimplemented watch_pane = not_implemented (codes "rook.link.v1.LinkService.WatchPane")
