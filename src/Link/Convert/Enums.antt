-- ===== src/Link/Convert/Enums.antt =====
-- link/convert.go: states, command kinds and dispositions, and executor.go's Disposition.
use rook_host.Base.{ℕ, [], if◌then◌else◌}
use rook_host.Base.Bytes.{Bytes, codes, str_eq}
use rook_host.Link.Wire.{AgentState, CommandKind, DispositionCode}

-- executor.go: what happened at the keyboard. A host may report another number.
pub data Disposition : Type 0 where
  delivered duplicate dropped : Disposition
  other : ℕ → Disposition

unfoldable pub state_to_proto : Bytes → AgentState
state_to_proto s =
    if str_eq s (codes "working")
    then AgentState.working
    else if str_eq s (codes "needs_input")
    then AgentState.needs_input
    else if str_eq s (codes "quiet")
    then AgentState.quiet
    else AgentState.unspecified

unfoldable pub state_from_proto : AgentState → Bytes
state_from_proto AgentState.working = codes "working"
state_from_proto AgentState.needs_input = codes "needs_input"
state_from_proto AgentState.quiet = codes "quiet"
state_from_proto _ = []

unfoldable pub kind_from_proto : CommandKind → Bytes
kind_from_proto CommandKind.compact = codes "compact"
kind_from_proto CommandKind.resume = codes "resume"
kind_from_proto CommandKind.spawn = codes "spawn"
kind_from_proto CommandKind.say = codes "say"
kind_from_proto _ = []

unfoldable pub disposition_to_proto : Disposition → DispositionCode
disposition_to_proto delivered = DispositionCode.delivered
disposition_to_proto duplicate = DispositionCode.duplicate
disposition_to_proto dropped = DispositionCode.dropped
disposition_to_proto (other n) = DispositionCode.unspecified
