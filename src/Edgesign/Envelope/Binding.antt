-- ===== src/Edgesign/Envelope/Binding.antt =====
-- What an envelope signature binds: the signed text determines each signed field.
use rook_host.Base.{ℕ, ◌≡◌, ◌<◌, Option, none, some, All, [], ap, get_or, true, arith}
use rook_host.Base.Bytes.{Bytes}
use rook_host.Crypto.{Crypto}
use rook_host.Edgesign.Canonical.{canonical_inj, Fits, u64_inj, u64-Fits}
use rook_host.Edgesign.Envelope.{
  verify_command, sign_command, EdgeCommand, EdgeEvent, AnyMessage, Timestamp, command_bytes,
  command_fields, event_bytes, event_fields, unix_nano, payload_sum, command_domain, event_domain,
}
use rook_host.Edgesign.Envelope.Wire.{IsWireCommand, IsWireEvent, SameEvent, SameCommand}

unix_nano-lt : (t : Option Timestamp) → unix_nano t < 18446744073709551616
unfolding unix_nano
unix_nano-lt none = omega arith
unix_nano-lt (some t) = omega arith

module _ (crypto : Crypto) where
  payload_sum-Fits : (p : Option AnyMessage) → Fits (payload_sum crypto p)
  payload_sum-Fits none = omega arith
  payload_sum-Fits (some p) = omega (arith, crypto.length-sha256 p.value)

  pub command_fields-Fits : (c : EdgeCommand) → IsWireCommand c → All Fits (command_fields crypto c)
  command_fields-Fits c w = (
    w.fits_version,
    (
      w.fits_command,
      (
        w.fits_operation,
        (
          u64-Fits _,
          (
            w.fits_device,
            (
              w.fits_task,
              (
                w.fits_run,
                (
                  w.fits_type,
                  (
                    w.fits_resource,
                    (
                      u64-Fits _,
                      (
                        u64-Fits _,
                        (
                          u64-Fits _,
                          (
                            w.fits_key,
                            (
                              w.fits_grant,
                              (
                                w.fits_policy,
                                (w.fits_payload, (payload_sum-Fits c.payload, (w.fits_digest, tt))),
                              ),
                            ),
                          ),
                        ),
                      ),
                    ),
                  ),
                ),
              ),
            ),
          ),
        ),
      ),
    ),
  )

  pub event_fields-Fits : (e : EdgeEvent) → IsWireEvent e → All Fits (event_fields crypto e)
  event_fields-Fits e w = (
    w.fits_event,
    (
      w.fits_device,
      (
        u64-Fits _,
        (
          w.fits_command,
          (
            w.fits_type,
            (
              u64-Fits _,
              (u64-Fits _, (w.fits_payload, (payload_sum-Fits e.payload, (w.fits_digest, tt)))),
            ),
          ),
        ),
      ),
    ),
  )

  -- Two commands as they come off the wire with the same signed text agree in the protocol
  -- version, all ids, the attempt, the fencing token, the aggregate version, the expiry, the
  -- idempotency key, the grant, the policy hash, the payload's type, the SHA-256 of the payload
  -- and the ledger's digest.
  command_bytes-binds :
      (c d : EdgeCommand)
      → IsWireCommand c
      → IsWireCommand d
      → command_bytes crypto c ≡ command_bytes crypto d
      → SameCommand crypto c d
  unfolding command_bytes
  command_bytes-binds c d wc wd e =
      let split =
        canonical_inj command_domain command_domain _ _ (omega arith) (omega arith)
          (command_fields-Fits c wc) (command_fields-Fits d wd) e in
      let at : (k : ℕ)
          → get_or (command_fields crypto c) k [] ≡ get_or (command_fields crypto d) k [] =
        λ k. ap (λ l. get_or l k []) split.1 in
      record {
        version = at 0;
        command = at 1;
        operation = at 2;
        attempt = u64_inj _ _ (omega arith) (omega arith) (at 3);
        device = at 4;
        task = at 5;
        run = at 6;
        resource_type = at 7;
        resource = at 8;
        token = u64_inj _ _ (omega arith) (omega arith) (at 9);
        aggregate = u64_inj _ _ (omega arith) (omega arith) (at 10);
        expiry = u64_inj _ _ (unix_nano-lt c.expires_at) (unix_nano-lt d.expires_at) (at 11);
        key = at 12;
        grant = at 13;
        policy = at 14;
        payload_type = at 15;
        payload_sum = at 16;
        digest = at 17;
      }

  -- Two events as they come off the wire with the same signed text agree in their ids, sequence
  -- number, cause, type, time, fencing token, payload type, SHA-256 of the payload and recorded
  -- digest.
  event_bytes-binds :
      (c d : EdgeEvent)
      → IsWireEvent c
      → IsWireEvent d
      → event_bytes crypto c ≡ event_bytes crypto d
      → SameEvent crypto c d
  unfolding event_bytes
  event_bytes-binds c d wc wd e =
      let split =
        canonical_inj event_domain event_domain _ _ (omega arith) (omega arith)
          (event_fields-Fits c wc) (event_fields-Fits d wd) e in
      let at : (k : ℕ) → get_or (event_fields crypto c) k [] ≡ get_or (event_fields crypto d) k [] =
        λ k. ap (λ l. get_or l k []) split.1 in
      record {
        event = at 0;
        device = at 1;
        sequence = u64_inj _ _ (omega arith) (omega arith) (at 2);
        command = at 3;
        type = at 4;
        occurred = u64_inj _ _ (unix_nano-lt c.occurred_at) (unix_nano-lt d.occurred_at) (at 5);
        token = u64_inj _ _ (omega arith) (omega arith) (at 6);
        payload_type = at 7;
        payload_sum = at 8;
        digest = at 9;
      }

  -- The signature on an envelope covers every field that its text lists: two commands as they come
  -- off the wire with the same signed text agree in all of them, and so do two events; a payload
  -- and a time agree in their SHA-256 and their count of nanoseconds.
  pub envelope_texts_bind :
      (c d : EdgeCommand) (e f : EdgeEvent)
      → IsWireCommand c
      → IsWireCommand d
      → IsWireEvent e
      → IsWireEvent f
      → command_bytes crypto c ≡ command_bytes crypto d
      → event_bytes crypto e ≡ event_bytes crypto f
      → SameCommand crypto c d × SameEvent crypto e f
  envelope_texts_bind c d e f wc wd we wf same_command same_event =
      (command_bytes-binds c d wc wd same_command, event_bytes-binds e f we wf same_event)

  -- What SignCommand signs, VerifyCommand accepts under the key's public half.
  pub verify_command-sign_command :
      (priv : Bytes) (cmd : EdgeCommand)
      → verify_command crypto (crypto.public_key priv) (sign_command crypto priv cmd) ≡ true
  unfolding verify_command sign_command command_bytes
  verify_command-sign_command priv cmd = ground (
    arith,
    crypto.verify-sign priv (command_bytes crypto cmd),
    crypto.length-sign priv (command_bytes crypto cmd),
  )
