-- ===== src/Projection/Status.antt =====
-- The snapshot of projection/projection.go and Status.Clamp. A float64 is its 64-bit pattern, a
-- number that nothing computes with; a Go int is an integer; a nil slice is the empty list.
pub mod Bounds
use rook_host.Base.{
  ℕ, Option, none, some, Bool, ◌||◌, List, [], map, length, take, ltb, if◌then◌else◌,
}
use rook_host.Base.Bytes.{Bytes, is_empty}
use rook_host.Base.Int.{ℤ, pos, is_negative, exceeds}
use rook_host.Base.Time.{Time}
use rook_host.Projection.Text.{clip, cap}

pub record AgentDigest : Type 0 where
  pub headline : Bytes
  pub bullets : List Bytes
  pub at : Time

pub record Agent : Type 0 where
  pub id : Bytes
  pub state : Bytes
  pub title : Bytes
  pub ask : Bytes
  pub ask_id : Bytes
  pub model : Bytes
  pub cost_usd : ℕ
  pub ctx_pct : ℤ
  pub digest : Option AgentDigest
  pub attached : Bool
  pub now : Bytes
  pub now_at : Time
  pub last_event : Time

pub record Workspace : Type 0 where
  pub name : Bytes
  pub branch : Bytes
  pub attention : ℤ
  pub agents : List Agent

pub record Usage : Type 0 where
  pub mode : Bytes
  pub session_pct : ℤ
  pub session_resets : Bytes
  pub week_all_pct : ℤ
  pub week_all_resets : Bytes
  pub week_model_name : Bytes
  pub week_model_pct : ℤ
  pub week_model_resets : Bytes
  pub at : Time
  pub agent_today_usd : ℕ
  pub agent_week_usd : ℕ

pub record Status : Type 0 where
  pub hostname : Bytes
  pub rook_version : Bytes
  pub host_id : Bytes
  pub workspaces : List Workspace
  pub usage : Option Usage

abbrev pub max_ask_id_len : ℕ
max_ask_id_len = 128

abbrev pub max_workspaces : ℕ
max_workspaces = 100

abbrev pub max_agents : ℕ
max_agents = 50

abbrev pub max_short : ℕ
max_short = 200

abbrev pub max_ask : ℕ
max_ask = 2000

abbrev pub max_headline : ℕ
max_headline = 400

abbrev pub max_bullets : ℕ
max_bullets = 6

abbrev pub max_bullet : ℕ
max_bullet = 400

-- The block on a.Digest: a digest with nothing to headline is not a digest.
unfoldable pub clamp_digest : AgentDigest → Option AgentDigest
clamp_digest d =
    let headline' = clip d.headline max_headline in
    let bullets' = map (λ b. clip b max_bullet) (cap max_bullets d.bullets) in
    if is_empty headline'
    then none
    else some (record d { headline = headline'; bullets = bullets' })

abbrev pub clamp_optional_digest : Option AgentDigest → Option AgentDigest
clamp_optional_digest none = none
clamp_optional_digest (some d) = clamp_digest d

abbrev pub clamp_ctx_pct : ℤ → ℤ
clamp_ctx_pct n = if is_negative n || exceeds n 999 then pos 0 else n

unfoldable pub clamp_agent : Agent → Agent
unfolding clamp_digest
clamp_agent a = record a {
  id = clip a.id max_ask_id_len;
  state = clip a.state max_short;
  title = clip a.title max_short;
  ask = clip a.ask max_ask;
  ask_id = clip a.ask_id max_ask_id_len;
  model = clip a.model max_short;
  now = clip a.now max_short;
  ctx_pct = clamp_ctx_pct a.ctx_pct;
  digest = clamp_optional_digest a.digest;
}

unfoldable pub clamp_workspace : Workspace → Workspace
unfolding clamp_agent
clamp_workspace w = record w {
  name = clip w.name max_short;
  branch = clip w.branch max_short;
  agents = map clamp_agent (cap max_agents w.agents);
}

unfoldable pub clamp_usage : Usage → Usage
clamp_usage u = record u {
  mode = clip u.mode 32;
  session_resets = clip u.session_resets 100;
  week_all_resets = clip u.week_all_resets 100;
  week_model_name = clip u.week_model_name 64;
  week_model_resets = clip u.week_model_resets 100;
}

abbrev pub clamp_optional_usage : Option Usage → Option Usage
clamp_optional_usage none = none
clamp_optional_usage (some u) = some (clamp_usage u)

-- Status.Clamp
unfoldable pub clamp : Status → Status
unfolding clamp_usage clamp_workspace
clamp s = record s {
  hostname = clip s.hostname max_short;
  rook_version = clip s.rook_version max_short;
  host_id = clip s.host_id max_ask_id_len;
  usage = clamp_optional_usage s.usage;
  workspaces = map clamp_workspace (cap max_workspaces s.workspaces);
}
