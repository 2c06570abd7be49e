-- ===== src/Registry/Book.antt =====
-- registry/registry.go: the capability vocabulary, Device, and the book as a list of devices, one
-- for each id (a Go map from id to device, whose order is not specified).
use rook_host.Base.{
  Option, none, some, Bool, ◌&&◌, ◌||◌, not, List, [], ◌∷◌, ◌++◌, is_some, if◌then◌else◌,
}
use rook_host.Base.Bytes.{Bytes, codes, str_eq, contains}
use rook_host.Base.Time.{Time}

abbrev pub cap_status_read : Bytes
cap_status_read = codes "status.read"

abbrev pub cap_agent_answer : Bytes
cap_agent_answer = codes "agent.answer"

abbrev pub cap_agent_command : Bytes
cap_agent_command = codes "agent.command"

abbrev pub cap_session_read : Bytes
cap_session_read = codes "session.read"

abbrev pub default_capabilities : List Bytes
default_capabilities =
    cap_status_read ∷ cap_agent_answer ∷ cap_agent_command ∷ cap_session_read ∷ []

unfoldable pub known_capability : Bytes → Bool
known_capability s =
    str_eq s cap_status_read
    || str_eq s cap_agent_answer
    || str_eq s cap_agent_command
    || str_eq s cap_session_read

pub record Device : Type 0 where
  pub id : Bytes
  pub name : Bytes
  pub model : Bytes
  pub public_key : Bytes
  pub capabilities : List Bytes
  pub paired_at : Time
  pub last_seen_at : Time
  pub revoked_at : Option Time

-- Device.Revoked
abbrev pub revoked : Device → Bool
revoked d = is_some d.revoked_at

-- The loop of Add and SetCapabilities over the requested capabilities.
unfoldable pub keep_capabilities : List Bytes → List Bytes → List Bytes
keep_capabilities kept [] = kept
keep_capabilities kept (c ∷ cs) =
    keep_capabilities (if known_capability c && not (contains kept c) then kept ++ c ∷ [] else kept)
      cs

-- d, ok := r.devices[id]
unfoldable pub find : Bytes → List Device → Option Device
find id [] = none
find id (d ∷ ds) = if str_eq d.id id then some d else find id ds

-- r.devices[d.ID] = &d
unfoldable pub put : Device → List Device → List Device
put d [] = d ∷ []
put d (e ∷ es) = if str_eq e.id d.id then d ∷ es else e ∷ put d es
