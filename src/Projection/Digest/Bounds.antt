-- ===== src/Projection/Digest/Bounds.antt =====
-- What Digest.Clamp bounds.
use rook_host.Base.{◌≤◌, ◌≡◌, ◌↔◌, subst, length, All}
use rook_host.Projection.Text.{clip, cap}
use rook_host.Projection.Text.Clip.{length-clip-le, clip_short}
use rook_host.Projection.Text.Cap.{Within, length-map-cap, map-cap_fixed, clips-Within}
use rook_host.Projection.Digest.{Digest, clamp}

pub record DigestFits (d : Digest) : Type 0 where
  pub id : Within 128 d.id
  pub session_id : Within 128 d.session_id
  pub headline : Within 400 d.headline
  pub bullets : length d.bullets ≤ 8
  pub each_bullet : All (Within 400) d.bullets
  pub full_text : Within 131072 d.full_text
  pub prompt : Within 8192 d.prompt
  pub reply : Within 8192 d.reply
  pub reply_state : Within 64 d.reply_state
  pub model : Within 128 d.model

clamp-Fits : (d : Digest) → DigestFits (clamp d)
unfolding clamp
clamp-Fits d = record {
  id = length-clip-le d.id 128;
  session_id = length-clip-le d.session_id 128;
  headline = length-clip-le d.headline 400;
  bullets = length-map-cap (λ b. clip b 400) 8 d.bullets;
  each_bullet = clips-Within 400 (cap 8 d.bullets);
  full_text = length-clip-le d.full_text 131072;
  prompt = length-clip-le d.prompt 8192;
  reply = length-clip-le d.reply 8192;
  reply_state = length-clip-le d.reply_state 64;
  model = length-clip-le d.model 128;
}

clamp_fixed : (d : Digest) → DigestFits d → clamp d ≡ d
unfolding clamp
clamp_fixed d f = λ i. record d {
  id = clip_short d.id 128 f.id i;
  session_id = clip_short d.session_id 128 f.session_id i;
  headline = clip_short d.headline 400 f.headline i;
  bullets =
      map-cap_fixed (Within 400) (λ b. clip b 400) 8 d.bullets (λ b. clip_short b 400) f.bullets
        f.each_bullet i;
  full_text = clip_short d.full_text 131072 f.full_text i;
  prompt = clip_short d.prompt 8192 f.prompt i;
  reply = clip_short d.reply 8192 f.reply i;
  reply_state = clip_short d.reply_state 64 f.reply_state i;
  model = clip_short d.model 128 f.model i;
}

-- Clamping leaves a digest alone exactly when it is within the caps; the clamped digest is within
-- them, and clamping it again changes nothing.
pub digest_clamp-exact :
    (d : Digest)
    → ((clamp d ≡ d) ↔ DigestFits d) × DigestFits (clamp d) × (clamp (clamp d) ≡ clamp d)
digest_clamp-exact d = (
  (λ e. subst DigestFits e (clamp-Fits d), clamp_fixed d),
  clamp-Fits d,
  clamp_fixed (clamp d) (clamp-Fits d),
)
