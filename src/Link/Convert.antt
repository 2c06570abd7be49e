-- ===== src/Link/Convert.antt =====
-- link/convert.go: between the types of projection/ and the wire messages.
pub mod Enums
pub mod Frames
pub mod RoundTrip
use rook_host.Base.{Option, none, some, [], map, if◌then◌else◌}
use rook_host.Base.Int.{to_i32}
use rook_host.Base.Time.{Time, is_zero}
use rook_host.Projection.Status.{AgentDigest, Agent, Workspace, Usage, Status}
use rook_host.Projection.Digest.{Digest}
use rook_host.Link.Convert.Enums.{state_to_proto, state_from_proto}
use rook_host.Link.Wire.{
  Timestamp, Timestamppb, AgentDigestMsg, AgentMsg, WorkspaceMsg, UsageMsg, StatusMsg, DigestMsg,
}

module _ (ts : Timestamppb) where
  -- `if !t.IsZero() { out = timestamppb.New(t) }`
  abbrev pub time_to_proto : Time → Option Timestamp
  time_to_proto t = if is_zero t then none else some (ts.new t)

  -- `if p != nil { out = p.AsTime() }`
  abbrev pub time_from_proto : Option Timestamp → Time
  time_from_proto none = 0
  time_from_proto (some p) = ts.as_time p

  unfoldable pub usage_to_proto : Option Usage → Option UsageMsg
  usage_to_proto none = none
  usage_to_proto (some u) = some (record {
    mode = u.mode;
    session_pct = to_i32 u.session_pct;
    session_resets = u.session_resets;
    week_all_pct = to_i32 u.week_all_pct;
    week_all_resets = u.week_all_resets;
    week_model_name = u.week_model_name;
    week_model_pct = to_i32 u.week_model_pct;
    week_model_resets = u.week_model_resets;
    at = time_to_proto u.at;
    agent_today_usd = u.agent_today_usd;
    agent_week_usd = u.agent_week_usd;
  })

  unfoldable pub usage_from_proto : Option UsageMsg → Option Usage
  usage_from_proto none = none
  usage_from_proto (some p) = some (record {
    mode = p.mode;
    session_pct = p.session_pct;
    session_resets = p.session_resets;
    week_all_pct = p.week_all_pct;
    week_all_resets = p.week_all_resets;
    week_model_name = p.week_model_name;
    week_model_pct = p.week_model_pct;
    week_model_resets = p.week_model_resets;
    at = time_from_proto p.at;
    agent_today_usd = p.agent_today_usd;
    agent_week_usd = p.agent_week_usd;
  })

  abbrev pub agent_digest_to_proto : Option AgentDigest → Option AgentDigestMsg
  agent_digest_to_proto none = none
  agent_digest_to_proto (some d) =
      some (record { headline = d.headline; bullets = d.bullets; at = time_to_proto d.at })

  abbrev pub agent_digest_from_proto : Option AgentDigestMsg → Option AgentDigest
  agent_digest_from_proto none = none
  agent_digest_from_proto (some p) =
      some (record { headline = p.headline; bullets = p.bullets; at = time_from_proto p.at })

  -- The bodies of the loops of statusToProto.
  unfoldable pub agent_to_proto : Agent → AgentMsg
  unfolding state_to_proto
  agent_to_proto a = record {
    id = a.id;
    state = state_to_proto a.state;
    title = a.title;
    ask = a.ask;
    ask_id = a.ask_id;
    model = a.model;
    cost_usd = a.cost_usd;
    ctx_pct = to_i32 a.ctx_pct;
    digest = agent_digest_to_proto a.digest;
    last_event = time_to_proto a.last_event;
    now = a.now;
    now_at = time_to_proto a.now_at;
    attached = a.attached;
  }

  unfoldable pub workspace_to_proto : Workspace → WorkspaceMsg
  unfolding agent_to_proto
  workspace_to_proto w = record {
    name = w.name;
    branch = w.branch;
    attention = to_i32 w.attention;
    agents = map agent_to_proto w.agents;
  }

  unfoldable pub status_to_proto : Status → Time → StatusMsg
  unfolding workspace_to_proto usage_to_proto
  status_to_proto s at = record {
    hostname = s.hostname;
    rook_version = s.rook_version;
    host_id = s.host_id;
    usage = usage_to_proto s.usage;
    at = time_to_proto at;
    workspaces = map workspace_to_proto s.workspaces;
  }

  -- The bodies of the loops of statusFromProto.
  unfoldable pub agent_from_proto : AgentMsg → Agent
  unfolding state_from_proto
  agent_from_proto p = record {
    id = p.id;
    state = state_from_proto p.state;
    title = p.title;
    ask = p.ask;
    ask_id = p.ask_id;
    model = p.model;
    cost_usd = p.cost_usd;
    ctx_pct = p.ctx_pct;
    digest = agent_digest_from_proto p.digest;
    attached = p.attached;
    now = p.now;
    now_at = time_from_proto p.now_at;
    last_event = time_from_proto p.last_event;
  }

  unfoldable pub workspace_from_proto : WorkspaceMsg → Workspace
  unfolding agent_from_proto
  workspace_from_proto p = record {
    name = p.name;
    branch = p.branch;
    attention = p.attention;
    agents = map agent_from_proto p.agents;
  }

  unfoldable pub status_from_proto : Option StatusMsg → Status
  unfolding workspace_from_proto usage_from_proto
  status_from_proto none = record {
    hostname = [];
    rook_version = [];
    host_id = [];
    workspaces = [];
    usage = none;
  }
  status_from_proto (some p) = record {
    hostname = p.hostname;
    rook_version = p.rook_version;
    host_id = p.host_id;
    usage = usage_from_proto p.usage;
    workspaces = map workspace_from_proto p.workspaces;
  }

  unfoldable pub digest_to_proto : Digest → DigestMsg
  digest_to_proto d = record {
    id = d.id;
    session_id = d.session_id;
    headline = d.headline;
    bullets = d.bullets;
    full_text = d.full_text;
    prompt = d.prompt;
    reply = d.reply;
    reply_state = d.reply_state;
    at = time_to_proto d.at;
    model = d.model;
    cost_usd = d.cost_usd;
  }

  unfoldable pub digest_from_proto : Option DigestMsg → Digest
  digest_from_proto none = record {
    id = [];
    session_id = [];
    headline = [];
    bullets = [];
    full_text = [];
    prompt = [];
    reply = [];
    reply_state = [];
    at = 0;
    model = [];
    cost_usd = 0;
  }
  digest_from_proto (some p) = record {
    id = p.id;
    session_id = p.session_id;
    headline = p.headline;
    bullets = p.bullets;
    full_text = p.full_text;
    prompt = p.prompt;
    reply = p.reply;
    reply_state = p.reply_state;
    at = time_from_proto p.at;
    model = p.model;
    cost_usd = p.cost_usd;
  }
