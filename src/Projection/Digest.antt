-- ===== src/Projection/Digest.antt =====
-- The full digest of projection/projection.go and Digest.Clamp.
pub mod Bounds
use rook_host.Base.{ℕ, List, map}
use rook_host.Base.Bytes.{Bytes}
use rook_host.Base.Time.{Time}
use rook_host.Projection.Text.{clip, cap}

pub record Digest : Type 0 where
  pub id : Bytes
  pub session_id : Bytes
  pub headline : Bytes
  pub bullets : List Bytes
  pub full_text : Bytes
  pub prompt : Bytes
  pub reply : Bytes
  pub reply_state : Bytes
  pub at : Time
  pub model : Bytes
  pub cost_usd : ℕ

-- 128 * 1024
abbrev pub max_full_text : ℕ
max_full_text = 131072

-- 8 * 1024
abbrev pub max_small : ℕ
max_small = 8192

unfoldable pub clamp : Digest → Digest
clamp d = record d {
  id = clip d.id 128;
  session_id = clip d.session_id 128;
  headline = clip d.headline 400;
  bullets = map (λ b. clip b 400) (cap 8 d.bullets);
  full_text = clip d.full_text max_full_text;
  prompt = clip d.prompt max_small;
  reply = clip d.reply max_small;
  reply_state = clip d.reply_state 64;
  model = clip d.model 128;
}
