-- ===== src/Edgesign/Grant/Action.antt =====
-- What an action digest's text determines.
use rook_host.Base.{◌≡◌, ◌≢◌, refl, [], ◌∷◌, ◌++◌, All}
use rook_host.Base.Bytes.{Bytes}
use rook_host.Edgesign.Grant.{action_text}

-- No '|' in the text.
abbrev pub NoBar : Bytes → Type 0
NoBar s = All (λ b. b ≢ 124) s

split_bar :
    (s t u v : Bytes) → NoBar s → NoBar t → s ++ (124 ∷ u) ≡ t ++ (124 ∷ v) → (s ≡ t) × (u ≡ v)
split_bar [] [] u v a b e = (refl, cc)
split_bar [] (y ∷ t) u v a b e = absurd (b.0 (cc))
split_bar (x ∷ s) [] u v a b e = absurd (a.0 (cc))
split_bar (x ∷ s) (y ∷ t) u v a b e =
    let tail : s ++ (124 ∷ u) ≡ t ++ (124 ∷ v) = cc in
    let rest = split_bar s t u v a.1 b.1 tail in (cc, rest.1)

-- Where the run, the device, and the resource's type and id contain no '|', the text that an action
-- digest hashes determines them and the payload.
pub action_text-binds :
    (r d t i p r' d' t' i' p' : Bytes)
    → All NoBar (r ∷ d ∷ t ∷ i ∷ r' ∷ d' ∷ t' ∷ i' ∷ [])
    → action_text r d t i p ≡ action_text r' d' t' i' p'
    → (r ≡ r') × (d ≡ d') × (t ≡ t') × (i ≡ i') × (p ≡ p')
unfolding action_text
action_text-binds r d t i p r' d' t' i' p' (a, (b, (c, (f, (a', (b', (c', (f', _)))))))) e =
    let (run, e1) = split_bar r r' _ _ a a' e in
    let (device, e2) = split_bar d d' _ _ b b' e1 in
    let (type, e3) = split_bar t t' _ _ c c' e2 in
    let (id, payload) = split_bar i i' p p' f f' e3 in (run, device, type, id, payload)
