-- ===== src/Examples/Signatures.antt =====
-- Signed texts.
use rook_host.Base.{◌≡◌, ◌≢◌, refl, none, [], arith}
use rook_host.Base.Bytes.{Bytes, codes}
use rook_host.Crypto.{toy_crypto}
use rook_host.Edgesign.Envelope.{EdgeEvent, command_bytes, event_bytes}
use rook_host.Edgesign.Envelope.Binding.{envelope_texts_bind}
use rook_host.Edgesign.Envelope.Wire.{IsWireCommand, IsWireEvent, SameCommand, SameEvent}
use rook_host.Examples.Data.{order}
use rook_host.Identity.Sign.{pair_bytes, auth_bytes}
use rook_host.Identity.Sign.Binding.{statement_texts_bind, signed_texts_differ}

abbrev report : Bytes → EdgeEvent
report signature = record {
  event_id = codes "e";
  device_id = codes "d";
  device_sequence = 4;
  command_id = codes "c";
  type = codes "done";
  occurred_at = none;
  fencing_token = 7;
  payload = none;
  payload_digest = codes "s";
  device_signature = signature;
}

order-IsWireCommand : (s : Bytes) → IsWireCommand (order s)
order-IsWireCommand s = record {
  fits_version = omega arith;
  fits_command = omega arith;
  fits_operation = omega arith;
  fits_device = omega arith;
  fits_task = omega arith;
  fits_run = omega arith;
  fits_type = omega arith;
  fits_resource = omega arith;
  fits_key = omega arith;
  fits_grant = omega arith;
  fits_policy = omega arith;
  fits_payload = omega arith;
  fits_digest = omega arith;
  range_attempt = omega arith;
  range_token = omega arith;
  range_version = omega arith;
}

report-IsWireEvent : (s : Bytes) → IsWireEvent (report s)
report-IsWireEvent s = record {
  fits_event = omega arith;
  fits_device = omega arith;
  fits_command = omega arith;
  fits_type = omega arith;
  fits_payload = omega arith;
  fits_digest = omega arith;
  range_sequence = omega arith;
  range_token = omega arith;
}

order_bytes : command_bytes toy_crypto (order []) ≡ command_bytes toy_crypto (order (codes "z"))
unfolding command_bytes
order_bytes = refl

report_bytes : event_bytes toy_crypto (report []) ≡ event_bytes toy_crypto (report (codes "z"))
unfolding event_bytes
report_bytes = refl

envelope_texts_bind_example :
    SameCommand toy_crypto (order []) (order (codes "z"))
    × SameEvent toy_crypto (report []) (report (codes "z"))
envelope_texts_bind_example =
    envelope_texts_bind toy_crypto (order []) (order (codes "z")) (report []) (report (codes "z"))
      (order-IsWireCommand []) (order-IsWireCommand (codes "z")) (report-IsWireEvent [])
      (report-IsWireEvent (codes "z")) order_bytes report_bytes

signed_texts_differ_example :
    (pair_bytes (codes "h") (codes "s") (codes "k")
      ≢ auth_bytes (codes "h") (codes "d") (codes "n"))
    × (pair_bytes (codes "h") (codes "s") (codes "k") ≢ command_bytes toy_crypto (order []))
    × (pair_bytes (codes "h") (codes "s") (codes "k") ≢ event_bytes toy_crypto (report []))
    × (auth_bytes (codes "h") (codes "d") (codes "n") ≢ command_bytes toy_crypto (order []))
    × (auth_bytes (codes "h") (codes "d") (codes "n") ≢ event_bytes toy_crypto (report []))
    × (command_bytes toy_crypto (order []) ≢ event_bytes toy_crypto (report []))
signed_texts_differ_example =
    signed_texts_differ toy_crypto (codes "h") (codes "s") (codes "k") (codes "h") (codes "d")
      (codes "n") (order []) (report [])
      (omega arith, (omega arith, (omega arith, (omega arith, (omega arith, (omega arith, tt))))))
      (order-IsWireCommand []) (report-IsWireEvent [])

statement_texts_bind_example :
    ((codes "h" ≡ codes "h") × (codes "s" ≡ codes "s") × (codes "k" ≡ codes "k"))
    × (codes "h" ≡ codes "h")
    × (codes "d" ≡ codes "d")
    × (codes "n" ≡ codes "n")
statement_texts_bind_example =
    statement_texts_bind (codes "h") (codes "s") (codes "k") (codes "h") (codes "s") (codes "k")
      (codes "h") (codes "d") (codes "n") (codes "h") (codes "d") (codes "n")
      (omega arith, (omega arith, (omega arith, (omega arith, (omega arith, (omega arith, tt))))))
      (omega arith, (omega arith, (omega arith, (omega arith, (omega arith, (omega arith, tt))))))
      refl refl
