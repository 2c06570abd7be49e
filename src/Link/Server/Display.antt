-- ===== src/Link/Server/Display.antt =====
-- link/server.go: clipDisplay, which bounds the texts that a device supplies about itself.
use rook_host.Base.{
  ℕ, zero, suc, ◌≡◌, refl, true, false, [], length, take, get_or, leb, if◌then◌else◌, Bool-cases,
  inl, inr,
}
use rook_host.Base.Bytes.{Bytes}
use rook_host.Projection.Text.{is_continuation, clip, boundary}

-- The loop: from i down to 1, to a byte that starts an encoding.
unfoldable pub clip_from : Bytes → ℕ → Bytes
clip_from s zero = []
clip_from s (suc i) = elim (is_continuation (get_or s (suc i) 0)) [
  | false ↦ take (suc i) s
  | true ↦ clip_from s i
]

-- clipDisplay
unfoldable pub clip_display : Bytes → Bytes
unfolding clip_from
clip_display s = if leb (length s) 200 then s else clip_from s 200

clip_from-boundary : (s : Bytes) (n : ℕ) → clip_from s n ≡ take (boundary s n) s
unfolding clip_from boundary
clip_from-boundary s zero = refl
clip_from-boundary s (suc n) = elim (Bool-cases (is_continuation (get_or s (suc n) 0))) [
  | inl more ↦ rw (more, clip_from, boundary) (clip_from-boundary s n)
  | inr done ↦ rw (done, clip_from, boundary)
]

-- The server's cut of display texts is the projection's cut at 200 bytes.
pub clip_display-clip : (s : Bytes) → clip_display s ≡ clip s 200
unfolding clip_display clip
clip_display-clip s = rw (clip_from-boundary s 200)
