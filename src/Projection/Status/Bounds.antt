-- ===== src/Projection/Status/Bounds.antt =====
-- What Status.Clamp bounds, and that it changes nothing within the bounds.
use rook_host.Base.{
  ◌≤◌, ◌<◌, ◌≡◌, ◌↔◌, refl, subst, Option, none, some, ◌||◌, length, if◌then◌else◌, All, All-map,
  arith, Bool-cases, inl, inr,
}
use rook_host.Base.Bytes.{is_empty}
use rook_host.Base.Int.{ℤ, pos, negsuc, is_negative, exceeds}
use rook_host.Projection.Text.{clip, cap}
use rook_host.Projection.Text.Clip.{length-clip-le, clip_short}
use rook_host.Projection.Text.Cap.{
  Within, length-map-cap, map-cap_fixed, nonempty, not_empty, clips-Within,
}
use rook_host.Projection.Status.{
  AgentDigest, Agent, Workspace, Usage, Status, clamp_digest, clamp_agent, clamp_workspace,
  clamp_usage, clamp, clamp_ctx_pct, clamp_optional_digest, clamp_optional_usage,
}

abbrev IsPercent : ℤ → Type 0
IsPercent (pos n) = n ≤ 999
IsPercent (negsuc n) = ⊥

pub record DigestFits (d : AgentDigest) : Type 0 where
  pub headline : Within 400 d.headline
  pub present : 0 < length d.headline
  pub bullets : length d.bullets ≤ 6
  pub each_bullet : All (Within 400) d.bullets

abbrev OptionalDigestFits : Option AgentDigest → Type 0
OptionalDigestFits none = Unit
OptionalDigestFits (some d) = DigestFits d

pub record AgentFits (a : Agent) : Type 0 where
  pub id : Within 128 a.id
  pub state : Within 200 a.state
  pub title : Within 200 a.title
  pub ask : Within 2000 a.ask
  pub ask_id : Within 128 a.ask_id
  pub model : Within 200 a.model
  pub now : Within 200 a.now
  pub ctx_pct : IsPercent a.ctx_pct
  pub digest : OptionalDigestFits a.digest

pub record WorkspaceFits (w : Workspace) : Type 0 where
  pub name : Within 200 w.name
  pub branch : Within 200 w.branch
  pub agents : length w.agents ≤ 50
  pub each_agent : All AgentFits w.agents

pub record UsageFits (u : Usage) : Type 0 where
  pub mode : Within 32 u.mode
  pub session_resets : Within 100 u.session_resets
  pub week_all_resets : Within 100 u.week_all_resets
  pub week_model_name : Within 64 u.week_model_name
  pub week_model_resets : Within 100 u.week_model_resets

abbrev OptionalUsageFits : Option Usage → Type 0
OptionalUsageFits none = Unit
OptionalUsageFits (some u) = UsageFits u

-- Every unbounded dimension of a snapshot within its cap.
pub record StatusFits (s : Status) : Type 0 where
  pub hostname : Within 200 s.hostname
  pub rook_version : Within 200 s.rook_version
  pub host_id : Within 128 s.host_id
  pub workspaces : length s.workspaces ≤ 100
  pub each_workspace : All WorkspaceFits s.workspaces
  pub usage : OptionalUsageFits s.usage

clamp_digest-Fits : (d : AgentDigest) → OptionalDigestFits (clamp_digest d)
unfolding clamp_digest
clamp_digest-Fits d = elim (Bool-cases (is_empty (clip d.headline 400))) [
  | inl e ↦ rw (e, clamp_digest) tt
  | inr e ↦
      rw (e, clamp_digest)
        (record {
          headline = length-clip-le d.headline 400;
          present = nonempty _ e;
          bullets = length-map-cap (λ b. clip b 400) 6 d.bullets;
          each_bullet = clips-Within 400 (cap 6 d.bullets);
        })
]

clamp_digest_fixed : (d : AgentDigest) → DigestFits d → clamp_digest d ≡ some d
unfolding clamp_digest
clamp_digest_fixed d f = rw (
  clip_short d.headline 400 f.headline,
  not_empty d.headline f.present,
  clamp_digest,
  map-cap_fixed (Within 400) (λ b. clip b 400) 6 d.bullets (λ b. clip_short b 400) f.bullets
      f.each_bullet,
)

clamp_agent-Fits : (a : Agent) → AgentFits (clamp_agent a)
unfolding clamp_agent
clamp_agent-Fits a = record {
  id = length-clip-le a.id 128;
  state = length-clip-le a.state 200;
  title = length-clip-le a.title 200;
  ask = length-clip-le a.ask 2000;
  ask_id = length-clip-le a.ask_id 128;
  model = length-clip-le a.model 200;
  now = length-clip-le a.now 200;
  ctx_pct = percent a.ctx_pct;
  digest = optional a.digest;
}
  where
    percent : (n : ℤ) → IsPercent (if is_negative n || exceeds n 999 then pos 0 else n)
    percent (pos n) = elim (Bool-cases (exceeds (pos n) 999)) [
      | inl e ↦ rw e (omega arith)
      | inr e ↦ rw e (ground arith)
    ]
    percent (negsuc n) = omega arith

    optional : (d : Option AgentDigest) → OptionalDigestFits (clamp_optional_digest d)
    optional none = tt
    optional (some d) = clamp_digest-Fits d

clamp_agent_fixed : (a : Agent) → AgentFits a → clamp_agent a ≡ a
unfolding clamp_agent
clamp_agent_fixed a f = λ i. record a {
  id = clip_short a.id 128 f.id i;
  state = clip_short a.state 200 f.state i;
  title = clip_short a.title 200 f.title i;
  ask = clip_short a.ask 2000 f.ask i;
  ask_id = clip_short a.ask_id 128 f.ask_id i;
  model = clip_short a.model 200 f.model i;
  now = clip_short a.now 200 f.now i;
  ctx_pct = percent a.ctx_pct f.ctx_pct i;
  digest = optional a.digest f.digest i;
}
  where
    percent : (n : ℤ) → IsPercent n → clamp_ctx_pct n ≡ n
    percent (pos n) h = ground arith
    percent (negsuc n) h = absurd h

    optional : (d : Option AgentDigest) → OptionalDigestFits d → clamp_optional_digest d ≡ d
    optional none h = refl
    optional (some d) h = clamp_digest_fixed d h

clamp_workspace-Fits : (w : Workspace) → WorkspaceFits (clamp_workspace w)
unfolding clamp_workspace
clamp_workspace-Fits w = record {
  name = length-clip-le w.name 200;
  branch = length-clip-le w.branch 200;
  agents = length-map-cap clamp_agent 50 w.agents;
  each_agent = All-map AgentFits clamp_agent (cap 50 w.agents) clamp_agent-Fits;
}

clamp_workspace_fixed : (w : Workspace) → WorkspaceFits w → clamp_workspace w ≡ w
unfolding clamp_workspace
clamp_workspace_fixed w f = λ i. record w {
  name = clip_short w.name 200 f.name i;
  branch = clip_short w.branch 200 f.branch i;
  agents =
      map-cap_fixed AgentFits clamp_agent 50 w.agents clamp_agent_fixed f.agents f.each_agent i;
}

optional_usage-Fits : (u : Option Usage) → OptionalUsageFits (clamp_optional_usage u)
unfolding clamp_usage
optional_usage-Fits none = tt
optional_usage-Fits (some u) = record {
  mode = length-clip-le u.mode 32;
  session_resets = length-clip-le u.session_resets 100;
  week_all_resets = length-clip-le u.week_all_resets 100;
  week_model_name = length-clip-le u.week_model_name 64;
  week_model_resets = length-clip-le u.week_model_resets 100;
}

optional_usage_fixed : (u : Option Usage) → OptionalUsageFits u → clamp_optional_usage u ≡ u
unfolding clamp_usage
optional_usage_fixed none f = refl
optional_usage_fixed (some u) f = λ i. some (record u {
  mode = clip_short u.mode 32 f.mode i;
  session_resets = clip_short u.session_resets 100 f.session_resets i;
  week_all_resets = clip_short u.week_all_resets 100 f.week_all_resets i;
  week_model_name = clip_short u.week_model_name 64 f.week_model_name i;
  week_model_resets = clip_short u.week_model_resets 100 f.week_model_resets i;
})

-- A clamped snapshot is within every cap.
pub clamp-StatusFits : (s : Status) → StatusFits (clamp s)
unfolding clamp
clamp-StatusFits s = record {
  hostname = length-clip-le s.hostname 200;
  rook_version = length-clip-le s.rook_version 200;
  host_id = length-clip-le s.host_id 128;
  workspaces = length-map-cap clamp_workspace 100 s.workspaces;
  each_workspace =
      All-map WorkspaceFits clamp_workspace (cap 100 s.workspaces) clamp_workspace-Fits;
  usage = optional_usage-Fits s.usage;
}

clamp_fixed : (s : Status) → StatusFits s → clamp s ≡ s
unfolding clamp
clamp_fixed s f = λ i. record s {
  hostname = clip_short s.hostname 200 f.hostname i;
  rook_version = clip_short s.rook_version 200 f.rook_version i;
  host_id = clip_short s.host_id 128 f.host_id i;
  usage = optional_usage_fixed s.usage f.usage i;
  workspaces =
      map-cap_fixed WorkspaceFits clamp_workspace 100 s.workspaces clamp_workspace_fixed
        f.workspaces f.each_workspace i;
}

-- Clamping leaves a snapshot alone exactly when it is within the caps; so the clamped snapshot is
-- within them, and clamping it again changes nothing.
pub clamp-exact :
    (s : Status)
    → ((clamp s ≡ s) ↔ StatusFits s) × StatusFits (clamp s) × (clamp (clamp s) ≡ clamp s)
clamp-exact s = (
  (λ e. subst StatusFits e (clamp-StatusFits s), clamp_fixed s),
  clamp-StatusFits s,
  clamp_fixed (clamp s) (clamp-StatusFits s),
)
