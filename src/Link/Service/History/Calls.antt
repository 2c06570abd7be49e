-- ===== src/Link/Service/History/Calls.antt =====
-- What each call of a device leaves of whom the server serves.
use rook_host.Base.{◌≡◌, Bool, not, List, ◌∷◌, arith, inl, inr, if◌then◌else◌, if_both}
use rook_host.Base.Bytes.{Bytes}
use rook_host.Base.Time.{Time}
use rook_host.Base.Disk.{Fault}
use rook_host.Base.Result.{Result-cases}
use rook_host.Registry
use rook_host.Registry.{Registry, get}
use rook_host.Registry.Book.{cap_status_read, cap_session_read, cap_agent_answer, cap_agent_command}
use rook_host.Registry.Storage.{JsonCodec}
use rook_host.Link.Wire.{Timestamppb}
use rook_host.Link.Hub
use rook_host.Link.PaneHub
use rook_host.Link.Convert.Enums.{kind_from_proto}
use rook_host.Projection.Text.{trim_space}
use rook_host.Projection.Command.{valid_answer, valid_command}
use rook_host.Link.Server.{Server, Host, Effect, answer, execute}
use rook_host.Link.Server.Session.{
  authorize, get_status, watch_status, get_digest, submit_answer, submit_command, watch_pane,
  bad_session_id, AnswerRequest, CommandRequest,
}
use rook_host.Link.Service.History.Serving.{IsServing, IsAllowed, IsServing-Backs, touch-Backs}
use rook_host.Link.Service.History.Accepted.{left-IsServing, accepted-IsAllowed}
use rook_host.Link.Service.History.Hubs.{subscribe-IsHubServed, subscribe-ArePanesServed}

module _ (s : Server) (bearer : Bytes) (now : Time) (v : IsServing s) where
  pub get_status-IsServing : (tpb : Timestamppb) → IsServing (get_status tpb s bearer now).1
  unfolding get_status
  get_status-IsServing tpb =
      let same : (get_status tpb s bearer now).1 ≡ (authorize s bearer cap_status_read now).1 =
        elim (Result-cases (authorize s bearer cap_status_read now).0) [
          | inl (e, h) ↦ ground arith
          | inr (id, h) ↦ ground arith
        ] in
      rw same (left-IsServing s bearer cap_status_read now v)

  pub watch_status-IsServing :
      (delivered : Bool) → IsServing (watch_status s bearer delivered now).1
  unfolding watch_status
  watch_status-IsServing delivered =
      let a = (authorize s bearer cap_status_read now).1 in
      let w = left-IsServing s bearer cap_status_read now v in
      elim (Result-cases (authorize s bearer cap_status_read now).0) [
        | inl (e, h) ↦
            let same : (watch_status s bearer delivered now).1 ≡ a = ground arith in rw same w
        | inr (id, h) ↦
            let same : (watch_status s bearer delivered now).1
                ≡ record a { hub = Hub.subscribe a.hub id delivered } =
              ground arith in
            rw same (record {
              tokens = w.tokens;
              streams =
                  subscribe-IsHubServed (IsAllowed a.reg cap_status_read) a.hub id delivered
                    (accepted-IsAllowed s bearer cap_status_read now v id h) w.streams;
              panes = w.panes;
            })
      ]

  pub get_digest-IsServing :
      (tpb : Timestamppb) (host : Host) (session_id : Bytes)
      → IsServing (get_digest tpb host s bearer session_id now).1
  unfolding get_digest
  get_digest-IsServing tpb host session_id =
      let a = (authorize s bearer cap_session_read now).1 in
      let same : (get_digest tpb host s bearer session_id now).1 ≡ a =
        elim (Result-cases (authorize s bearer cap_session_read now).0) [
          | inl (e, h) ↦ ground arith
          | inr (id, h) ↦ ground arith
        ] in
      rw same (left-IsServing s bearer cap_session_read now v)

  pub watch_pane-IsServing :
      (host : Host) (session_id : Bytes) (opens delivered : Bool)
      → IsServing (watch_pane host s bearer session_id opens delivered now).1
  unfolding watch_pane
  watch_pane-IsServing host session_id opens delivered =
      let a = (authorize s bearer cap_session_read now).1 in
      let w = left-IsServing s bearer cap_session_read now v in
      elim (Result-cases (authorize s bearer cap_session_read now).0) [
        | inl (e, h) ↦
            let same : (watch_pane host s bearer session_id opens delivered now).1 ≡ a =
              ground arith in
            rw same w
        | inr (id, h) ↦
            let id' = trim_space session_id in
            let there = PaneHub.subscribe a.panes id id' opens delivered in
            let w' : IsServing (record a { panes = there }) = record {
              tokens = w.tokens;
              streams = w.streams;
              panes =
                  subscribe-ArePanesServed (IsAllowed a.reg cap_session_read) a.panes id id' opens
                    delivered (accepted-IsAllowed s bearer cap_session_read now v id h) w.panes;
            } in
            let same : (watch_pane host s bearer session_id opens delivered now).1 ≡ (
                if not host.has_panes
                then a
                else if bad_session_id id'
                then a
                else record a { panes = there }) =
              ground arith in
            rw same (
              if_both IsServing (not host.has_panes) a _ w
                (if_both IsServing (bad_session_id id') a _ w w'))
      ]

  -- What the executor's call and the touch after it leave.
  effect-IsServing :
      (json : JsonCodec) (a : Server) (effects : List Effect) (id : Bytes) (at : Time)
      (fault : Fault)
      → IsServing a
      → IsServing (record a { effects = effects; reg = Registry.touch json a.reg id at fault })
  effect-IsServing json a effects id at fault w =
      let w' : IsServing (record a { effects = effects }) = record {
        tokens = w.tokens;
        streams = w.streams;
        panes = w.panes;
      } in
      IsServing-Backs (record a { effects = effects }) _ (touch-Backs json a.reg id at fault) w'

  module _ (json : JsonCodec) (host : Host) (validated_at touched_at : Time) (fault : Fault) where
    pub submit_answer-IsServing :
        (m : AnswerRequest)
        → IsServing (submit_answer json host s bearer m now validated_at touched_at fault).1
    unfolding submit_answer
    submit_answer-IsServing m =
        let a = (authorize s bearer cap_agent_answer now).1 in
        let w = left-IsServing s bearer cap_agent_answer now v in
        let out = submit_answer json host s bearer m now validated_at touched_at fault in
        elim (Result-cases (authorize s bearer cap_agent_answer now).0) [
          | inl (e, h) ↦ let same : out.1 ≡ a = ground arith in rw same w
          | inr (id, h) ↦ elim (Result-cases (valid_answer m.ask_id m.text validated_at)) [
            | inl (e, k) ↦ let same : out.1 ≡ a = ground arith in rw same w
            | inr (x, k) ↦
                let same : out.1 ≡ record a {
                  effects = answer x ∷ a.effects;
                  reg = Registry.touch json a.reg id touched_at fault;
                } =
                  ground arith in
                rw same (effect-IsServing json a (answer x ∷ a.effects) id touched_at fault w)
          ]
        ]

    pub submit_command-IsServing :
        (m : CommandRequest)
        → IsServing (submit_command json host s bearer m now validated_at touched_at fault).1
    unfolding submit_command
    submit_command-IsServing m =
        let a = (authorize s bearer cap_agent_command now).1 in
        let w = left-IsServing s bearer cap_agent_command now v in
        let out = submit_command json host s bearer m now validated_at touched_at fault in
        elim (Result-cases (authorize s bearer cap_agent_command now).0) [
          | inl (e, h) ↦ let same : out.1 ≡ a = ground arith in rw same w
          | inr (id, h) ↦
              elim (Result-cases (
                valid_command (kind_from_proto m.kind) m.session_id m.workspace m.prompt
                  validated_at)) [
                    | inl (e, k) ↦ let same : out.1 ≡ a = ground arith in rw same w
                    | inr (x, k) ↦
                        let same : out.1 ≡ record a {
                          effects = execute x ∷ a.effects;
                          reg = Registry.touch json a.reg id touched_at fault;
                        } =
                          ground arith in
                        rw same
                          (effect-IsServing json a (execute x ∷ a.effects) id touched_at fault w)
                  ]
        ]
