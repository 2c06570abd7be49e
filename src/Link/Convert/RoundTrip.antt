-- ===== src/Link/Convert/RoundTrip.antt =====
-- What the conversion to the wire and back keeps.
use rook_host.Base.{
  ◌≡◌, refl, ◌⊎◌, inl, inr, ◌<◌, Option, none, some, List, [], ◌∷◌, All, map_round_trip, arith,
  Bool-cases,
}
use rook_host.Base.Bytes.{Bytes, codes, str_eq}
use rook_host.Base.Int.{ℤ, pos, negsuc, FitsI32, to_i32_fits, to_u32}
use rook_host.Base.Time.{Time, is_zero}
use rook_host.Projection.Status.{AgentDigest, Agent, Workspace, Usage, Status}
use rook_host.Projection.Pane.{PaneRow, PaneFrame}
use rook_host.Projection.Digest.{Digest}
use rook_host.Link.Wire.{Timestamppb}
use rook_host.Link.Convert.{
  time_to_proto, time_from_proto, usage_to_proto, usage_from_proto, agent_digest_to_proto,
  agent_digest_from_proto, agent_to_proto, agent_from_proto, workspace_to_proto,
  workspace_from_proto, status_to_proto, status_from_proto, digest_to_proto, digest_from_proto,
}
use rook_host.Link.Convert.Enums.{state_to_proto, state_from_proto}
use rook_host.Link.Convert.Frames.{
  run_to_proto, run_from_proto, row_to_proto, row_from_proto, pane_to_proto, pane_from_proto,
}

-- The canon of state strings, and the empty one.
abbrev IsState : Bytes → Type 0
IsState s = (s ≡ codes "working") ⊎ (s ≡ codes "needs_input") ⊎ (s ≡ codes "quiet") ⊎ (s ≡ [])

state_round_trip : (s : Bytes) → IsState s → state_from_proto (state_to_proto s) ≡ s
unfolding state_to_proto state_from_proto str_eq
state_round_trip s (inl e) = rw e
state_round_trip s (inr (inl e)) = rw e
state_round_trip s (inr (inr (inl e))) = rw e
state_round_trip s (inr (inr (inr e))) = rw e

pub record AgentOnWire (a : Agent) : Type 0 where
  pub state : IsState a.state
  pub ctx_pct : FitsI32 a.ctx_pct

pub record WorkspaceOnWire (w : Workspace) : Type 0 where
  pub attention : FitsI32 w.attention
  pub agents : All AgentOnWire w.agents

pub record UsageOnWire (u : Usage) : Type 0 where
  pub session_pct : FitsI32 u.session_pct
  pub week_all_pct : FitsI32 u.week_all_pct
  pub week_model_pct : FitsI32 u.week_model_pct

abbrev OptionalUsageOnWire : Option Usage → Type 0
OptionalUsageOnWire none = Unit
OptionalUsageOnWire (some u) = UsageOnWire u

-- What a snapshot must meet to cross the wire unchanged: canonical states, 32-bit numbers.
pub record StatusOnWire (s : Status) : Type 0 where
  pub workspaces : All WorkspaceOnWire s.workspaces
  pub usage : OptionalUsageOnWire s.usage

module _ (ts : Timestamppb) where
  time_round_trip : (t : Time) → time_from_proto ts (time_to_proto ts t) ≡ t
  time_round_trip t = elim (Bool-cases (is_zero t)) [
    | inl e ↦ rw e (ground arith)
    | inr e ↦ rw e (ts.as_time-new t)
  ]

  agent_digest_round_trip :
      (d : Option AgentDigest) → agent_digest_from_proto ts (agent_digest_to_proto ts d) ≡ d
  agent_digest_round_trip none = refl
  agent_digest_round_trip (some d) = λ i. some (record d { at = time_round_trip d.at i })

  agent_round_trip : (a : Agent) → AgentOnWire a → agent_from_proto ts (agent_to_proto ts a) ≡ a
  unfolding agent_to_proto agent_from_proto
  agent_round_trip a f = λ i. record a {
    state = state_round_trip a.state f.state i;
    ctx_pct = to_i32_fits a.ctx_pct f.ctx_pct i;
    digest = agent_digest_round_trip a.digest i;
    now_at = time_round_trip a.now_at i;
    last_event = time_round_trip a.last_event i;
  }

  workspace_round_trip :
      (w : Workspace) → WorkspaceOnWire w → workspace_from_proto ts (workspace_to_proto ts w) ≡ w
  unfolding workspace_to_proto workspace_from_proto
  workspace_round_trip w f = λ i. record w {
    attention = to_i32_fits w.attention f.attention i;
    agents =
        map_round_trip AgentOnWire (agent_to_proto ts) (agent_from_proto ts) w.agents
          agent_round_trip f.agents i;
  }

  usage_round_trip :
      (u : Option Usage) → OptionalUsageOnWire u → usage_from_proto ts (usage_to_proto ts u) ≡ u
  unfolding usage_to_proto usage_from_proto
  usage_round_trip none f = refl
  usage_round_trip (some u) f = λ i. some (record u {
    session_pct = to_i32_fits u.session_pct f.session_pct i;
    week_all_pct = to_i32_fits u.week_all_pct f.week_all_pct i;
    week_model_pct = to_i32_fits u.week_model_pct f.week_model_pct i;
    at = time_round_trip u.at i;
  })

  -- A snapshot with canonical state strings and counts within 32 bits comes back from the wire
  -- unchanged, whatever time it is published at.
  status_round_trip :
      (s : Status) (at : Time)
      → StatusOnWire s
      → status_from_proto ts (some (status_to_proto ts s at)) ≡ s
  unfolding status_to_proto status_from_proto
  status_round_trip s at f = λ i. record s {
    usage = usage_round_trip s.usage f.usage i;
    workspaces =
        map_round_trip WorkspaceOnWire (workspace_to_proto ts) (workspace_from_proto ts)
          s.workspaces workspace_round_trip f.workspaces i;
  }

  -- A full digest comes back from the wire unchanged.
  digest_round_trip : (d : Digest) → digest_from_proto ts (some (digest_to_proto ts d)) ≡ d
  unfolding digest_to_proto digest_from_proto
  digest_round_trip d = λ i. record d { at = time_round_trip d.at i }

abbrev FitsU32 : ℤ → Type 0
FitsU32 (pos n) = n < 4294967296
FitsU32 (negsuc n) = ⊥

u32_round_trip : (x : ℤ) → FitsU32 x → pos (to_u32 x) ≡ x
u32_round_trip (pos n) h = ground arith
u32_round_trip (negsuc n) h = absurd h

All-trivial {ℓ} : {A : Type ℓ} (xs : List A) → All (λ _. Unit {0}) xs
All-trivial [] = tt
All-trivial (x ∷ xs) = (tt, All-trivial xs)

row_round_trip : (r : PaneRow) → row_from_proto (row_to_proto r) ≡ r
unfolding row_to_proto row_from_proto
row_round_trip r = λ i. record r {
  runs =
      map_round_trip (λ _. Unit {0}) run_to_proto run_from_proto r.runs (λ x _. refl)
        (All-trivial r.runs) i;
}

-- A frame whose sizes and cursor are not negative and within 32 bits, as a clamped frame's sizes
-- are, comes back from the wire unchanged.
pane_round_trip :
    (f : PaneFrame)
    → FitsU32 f.cols
    → FitsU32 f.rows
    → FitsU32 f.cursor_x
    → FitsU32 f.cursor_y
    → pane_from_proto (some (pane_to_proto f)) ≡ f
unfolding pane_to_proto pane_from_proto
pane_round_trip f c r x y = λ i. record f {
  cols = u32_round_trip f.cols c i;
  rows = u32_round_trip f.rows r i;
  cursor_x = u32_round_trip f.cursor_x x i;
  cursor_y = u32_round_trip f.cursor_y y i;
  lines =
      map_round_trip (λ _. Unit {0}) row_to_proto row_from_proto f.lines (λ l _. row_round_trip l)
        (All-trivial f.lines) i;
}

abbrev pub FrameOnWire : PaneFrame → Type 0
FrameOnWire f = FitsU32 f.cols × FitsU32 f.rows × FitsU32 f.cursor_x × FitsU32 f.cursor_y

-- What the host projects crosses the wire unchanged: a snapshot with canonical state strings and
-- counts within 32 bits, whatever time it is published at, a full digest, and a frame whose sizes
-- and cursor are not negative and within 32 bits.
pub wire_round_trip :
    (ts : Timestamppb) (s : Status) (at : Time) (d : Digest) (f : PaneFrame)
    → StatusOnWire s
    → FrameOnWire f
    → (status_from_proto ts (some (status_to_proto ts s at)) ≡ s)
      × (digest_from_proto ts (some (digest_to_proto ts d)) ≡ d)
      × (pane_from_proto (some (pane_to_proto f)) ≡ f)
wire_round_trip ts s at d f on_wire (c, r, x, y) =
    (status_round_trip ts s at on_wire, digest_round_trip ts d, pane_round_trip f c r x y)
