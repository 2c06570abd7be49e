-- ===== src/Examples/Data.antt =====
-- The inputs.
use rook_host.Base.{ℕ, none, some, true, [], ◌∷◌}
use rook_host.Base.Bytes.{Bytes, codes}
use rook_host.Base.Int.{pos}
use rook_host.Projection.Status.{Status, Agent}
use rook_host.Projection.Pane.{PaneFrame}
use rook_host.Projection.Digest.{Digest}
use rook_host.Edgesign.Envelope.{EdgeCommand}
use rook_host.Registry.Book.{Device}

abbrev pub waiting_agent : Agent
waiting_agent = record {
  id = codes "a1";
  state = codes "needs_input";
  title = codes "tests";
  ask = codes "Deploy?";
  ask_id = codes "q1";
  model = codes "m";
  cost_usd = 0;
  ctx_pct = pos 40;
  digest = some (record { headline = codes "done"; bullets = codes "one" ∷ []; at = 5 });
  attached = true;
  now = [];
  now_at = 0;
  last_event = 9;
}

abbrev pub busy_status : Status
busy_status = record {
  hostname = codes "mac";
  rook_version = codes "1";
  host_id = codes "h";
  workspaces =
      record {
        name = codes "w";
        branch = codes "main";
        attention = pos 1;
        agents = waiting_agent ∷ [];
      }
      ∷ [];
  usage = none;
}

abbrev pub small_frame : PaneFrame
small_frame = record {
  cols = pos 80;
  rows = pos 24;
  cursor_x = pos 3;
  cursor_y = pos 1;
  cursor_visible = true;
  lines =
      record {
        text = codes "$ ls";
        runs = record { start = 0; len = 2; fg = 1; bg = 0; attrs = 1 } ∷ [];
      }
      ∷ [];
}

abbrev pub long_digest : Digest
long_digest = record {
  id = codes "d1";
  session_id = codes "s1";
  headline = codes "done";
  bullets = codes "a" ∷ codes "b" ∷ codes "c" ∷ codes "d" ∷ codes "e" ∷ codes "f" ∷ codes "g" ∷ [];
  full_text = codes "all of it";
  prompt = [];
  reply = [];
  reply_state = codes "none";
  at = 11;
  model = codes "m";
  cost_usd = 0;
}

abbrev pub key : ℕ → Bytes
key n =
    n ∷ 0 ∷ 0 ∷ 0 ∷ 0 ∷ 0 ∷ 0 ∷ 0 ∷ 0 ∷ 0 ∷ 0 ∷ 0 ∷ 0 ∷ 0 ∷ 0 ∷ 0 ∷ 0 ∷ 0 ∷ 0 ∷ 0 ∷ 0 ∷ 0 ∷ 0 ∷ 0
    ∷ 0 ∷ 0 ∷ 0 ∷ 0 ∷ 0 ∷ 0 ∷ 0 ∷ 0 ∷ []

abbrev pub phone : Device
phone = record {
  id = codes "phone";
  name = codes "Phone";
  model = codes "P";
  public_key = key 1;
  capabilities = codes "status.read" ∷ codes "agent.command" ∷ codes "root" ∷ [];
  paired_at = 6;
  last_seen_at = 0;
  revoked_at = none;
}

abbrev pub tablet : Device
tablet = record {
  id = codes "tablet";
  name = codes "Tablet";
  model = codes "T";
  public_key = key 2;
  capabilities = codes "status.read" ∷ [];
  paired_at = 4;
  last_seen_at = 0;
  revoked_at = none;
}

-- A command with a signature or without one.
abbrev pub order : Bytes → EdgeCommand
order signature = record {
  protocol_version = codes "v1";
  command_id = codes "c";
  logical_operation_id = codes "o";
  attempt = 1;
  device_id = codes "d";
  task_id = codes "t";
  workflow_run_id = codes "r";
  resource_type = codes "repo";
  resource_id = codes "x";
  fencing_token = 7;
  expected_aggregate_version = 3;
  expires_at = some (record { seconds = pos 100; nanos = pos 5 });
  idempotency_key = codes "k";
  approval_grant_id = codes "g";
  policy_context_hash = codes "p";
  payload = some (record { type_url = codes "u"; value = codes "b" });
  payload_digest = codes "s";
  cloud_signature = signature;
  approval_grant = codes "{}";
  ledger_payload = codes "l";
}
