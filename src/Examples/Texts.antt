-- ===== src/Examples/Texts.antt =====
-- Texts, snapshots, frames and digests.
use rook_host.Base.{◌≡◌, ◌↔◌, inl, inr, refl, some, [], ◌∷◌, arith}
use rook_host.Base.Bytes.{Bytes}
use rook_host.Projection.Text.{clip, is_continuation}
use rook_host.Projection.Text.Clip.{IsUtf8, one, two, nil, clip-IsUtf8}
use rook_host.Projection.Status
use rook_host.Projection.Status.Bounds.{StatusFits, clamp-exact}
use rook_host.Link.Convert.{status_to_proto, status_from_proto, digest_to_proto, digest_from_proto}
use rook_host.Link.Convert.Frames.{pane_to_proto, pane_from_proto}
use rook_host.Link.Convert.RoundTrip.{wire_round_trip}
use rook_host.Link.Server.Display.{clip_display, clip_display-clip}
use rook_host.Examples.Codecs.{seconds_and_nanos}
use rook_host.Examples.Data.{busy_status, small_frame, long_digest}

-- "aé", which a cut at two bytes would split.
abbrev accented : Bytes
accented = 0x61 ∷ 0xC3 ∷ 0xA9 ∷ []

clip-IsUtf8_example : IsUtf8 (clip accented 2)
unfolding is_continuation
clip-IsUtf8_example =
    clip-IsUtf8 accented 2
      (one 0x61 (omega arith) (two 0xC3 0xA9 (omega arith) (omega arith) refl nil))

clamp-exact_example :
    ((Status.clamp busy_status ≡ busy_status) ↔ StatusFits busy_status)
    × StatusFits (Status.clamp busy_status)
    × (Status.clamp (Status.clamp busy_status) ≡ Status.clamp busy_status)
clamp-exact_example = clamp-exact busy_status

clip_display-clip_example : clip_display accented ≡ clip accented 200
clip_display-clip_example = clip_display-clip accented

wire_round_trip_example :
    (status_from_proto seconds_and_nanos (some (status_to_proto seconds_and_nanos busy_status 7))
      ≡ busy_status)
    × (digest_from_proto seconds_and_nanos (some (digest_to_proto seconds_and_nanos long_digest))
        ≡ long_digest)
    × (pane_from_proto (some (pane_to_proto small_frame)) ≡ small_frame)
wire_round_trip_example =
    wire_round_trip seconds_and_nanos busy_status 7 long_digest small_frame
      (record {
        usage = tt;
        workspaces = (
          record {
            attention = omega arith;
            agents = (record { state = inr (inl refl); ctx_pct = omega arith }, tt);
          },
          tt,
        );
      })
      (omega arith, omega arith, omega arith, omega arith)
