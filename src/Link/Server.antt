-- ===== src/Link/Server.antt =====
-- link/server.go: the server's state, its publications and its revocation. Each reading
-- of the clock and each disk fault is an argument. What the embedding host supplies is in Host.
pub mod Display
pub mod Pairing
pub mod Session
pub mod Revocation
use rook_host.Base.{ℕ, Option, none, some, Bool, List, [], ◌∷◌}
use rook_host.Base.Bytes.{Bytes}
use rook_host.Base.Time.{Time}
use rook_host.Base.Result.{Result, ok, err}
use rook_host.Crypto.{Crypto}
use rook_host.Identity.Ids.{host_id_for}
use rook_host.Projection.Status.{Status}
use rook_host.Projection.Pane.{PaneFrame}
use rook_host.Projection.Digest.{Digest}
use rook_host.Projection.Command.{Answer, Command}
use rook_host.Registry
use rook_host.Registry.{Registry}
use rook_host.Registry.Storage.{JsonCodec, RegistryError}
use rook_host.Base.Disk.{Fault}
use rook_host.Pairing.Window.{Manager}
use rook_host.Link.Convert.Enums.{Disposition}
use rook_host.Link.Tokens
use rook_host.Link.Tokens.{Tokens}
use rook_host.Link.Nonces.{Nonces}
use rook_host.Link.Hub
use rook_host.Link.Hub.{Hub}
use rook_host.Link.PaneHub
use rook_host.Link.PaneHub.{PaneHub}

-- executor.go: the two verbs, as calls, and the executor's report.
pub data Effect : Type 0 where
  answer : Answer → Effect
  execute : Command → Effect

pub record Outcome : Type 0 where
  pub disposition : Disposition
  pub note : Bytes

-- Options, with the clock and the random source left to each call. The executor may depend on what
-- it was asked before.
pub record Host : Type 0 where
  pub public_key : Bytes
  pub trust_domain_id : Bytes
  pub host_name : Bytes
  pub has_panes : Bool
  pub exec : List Effect → Effect → Outcome
  pub digests : Option (Bytes → Option Digest)

pub record Server : Type 0 where
  pub reg : Registry
  pub pairs : Manager
  pub hub : Hub
  pub panes : PaneHub
  pub tokens : Tokens
  pub nonces : Nonces
  -- The calls made to the executor, newest first.
  pub effects : List Effect

-- Sessions and streams of a device end: shared by RevokeDevice and Pair.
unfoldable pub drop_sessions : Server → Bytes → Server
drop_sessions s device_id = record s {
  tokens = Tokens.drop_device s.tokens device_id;
  hub = Hub.drop_device s.hub device_id;
  panes = PaneHub.drop_device s.panes device_id;
}

module _ (crypto : Crypto) (json : JsonCodec) (host : Host) where
  -- s.id.HostID()
  abbrev pub host_id : Bytes
  host_id = host_id_for crypto host.public_key

  -- Publish stamps the host's identity.
  unfoldable pub publish_status : Server → Status → Time → Server
  publish_status s status now = record s {
    hub = Hub.publish s.hub (record status { host_id = host_id }) now;
  }

  -- PublishPane
  unfoldable pub publish_pane : Server → Bytes → PaneFrame → Server
  publish_pane s session_id f = record s { panes = PaneHub.publish s.panes session_id f }

  -- RevokeDevice
  unfoldable pub revoke_device :
      Server → Bytes → Time → Fault → Result RegistryError (Unit {0}) × Server
  unfolding drop_sessions
  revoke_device s device_id now fault =
      let (result, reg') = Registry.revoke json s.reg device_id now fault in
      elim result [
        | err e ↦ (err e, record s { reg = reg' })
        | ok _ ↦ (ok tt, drop_sessions (record s { reg = reg' }) device_id)
      ]
