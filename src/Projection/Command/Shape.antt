-- ===== src/Projection/Command/Shape.antt =====
-- The commands that ValidCommand accepts, and their natural keys.
use rook_host.Base.{
  sym, ◌≤◌, ◌<◌, ◌≡◌, ◌⊎◌, ◌↔◌, inl, inr, [], ◌++◌, length, arith, ◌||◌, Bool-cases,
}
use rook_host.Base.Bytes.{Bytes, codes, str_eq, str_eq_iff}
use rook_host.Base.Time.{Time}
use rook_host.Base.Decimal.{unix_minute}
use rook_host.Base.Result.{ok}
use rook_host.Projection.Text.{trim_space, fnv8}
use rook_host.Projection.Text.Trim.{trim_space_idem}
use rook_host.Projection.Command.{
  Command, compact, resume, spawn, say, valid_targeted, valid_spawn, valid_say, check_command,
  valid_command,
}

-- An accepted command, kind by kind: the fields that the kind takes are trimmed, present where
-- required and bounded, the others are empty, and the id is the kind and its target.
pub data Shape (now : Time) (c : Command) : Type 0 where
  targeted :
      (c.kind ≡ compact) ⊎ (c.kind ≡ resume)
      → 0 < length c.session_id
      → length c.session_id ≤ 128
      → c.workspace ≡ []
      → c.prompt ≡ []
      → c.id ≡ c.kind ++ (codes ":" ++ c.session_id)
      → c.at ≡ now
      → Shape now c
  spawned :
      c.kind ≡ spawn
      → c.session_id ≡ []
      → 0 < length c.workspace
      → length c.workspace ≤ 200
      → length c.prompt ≤ 4096
      → c.id ≡ codes "spawn:" ++ (c.workspace ++ (codes ":" ++ fnv8 c.prompt))
      → c.at ≡ now
      → Shape now c
  said :
      c.kind ≡ say
      → 0 < length c.session_id
      → length c.session_id ≤ 128
      → c.workspace ≡ []
      → 0 < length c.prompt
      → length c.prompt ≤ 4096
      → c.id
        ≡ codes "say:"
          ++ (c.session_id ++ (codes ":" ++ fnv8 (c.prompt ++ (codes "@" ++ unix_minute now))))
      → c.at ≡ now
      → Shape now c

module _ (k s w p : Bytes) (now : Time) (c : Command) where
  targeted-Shape : (k ≡ compact) ⊎ (k ≡ resume) → valid_targeted k s w p now ≡ ok c → Shape now c
  unfolding valid_targeted
  targeted-Shape hk e =
      targeted (ground arith) (ground arith) (ground arith) (ground arith) (ground arith)
        (ground arith) (ground arith)

  spawn-Shape : k ≡ spawn → valid_spawn k s w p now ≡ ok c → Shape now c
  unfolding valid_spawn
  spawn-Shape hk e =
      spawned (ground arith) (ground arith) (ground arith) (ground arith) (ground arith)
        (ground arith) (ground arith)

  say-Shape : k ≡ say → valid_say k s w p now ≡ ok c → Shape now c
  unfolding valid_say
  say-Shape hk e =
      said (ground arith) (ground arith) (ground arith) (ground arith) (ground arith) (ground arith)
        (ground arith) (ground arith)

  check-Shape : check_command k s w p now ≡ ok c → Shape now c
  unfolding check_command
  check-Shape e = elim (Bool-cases (str_eq k compact || str_eq k resume)) [
    | inl hit ↦
        targeted-Shape (ground (arith, str_eq_iff k compact, str_eq_iff k resume)) (rw hit at e)
    | inr miss ↦ elim (Bool-cases (str_eq k spawn)) [
      | inl hit ↦ spawn-Shape ((str_eq_iff k spawn).0 hit) (rw (miss, hit) at e)
      | inr other ↦ elim (Bool-cases (str_eq k say)) [
        | inl hit ↦ say-Shape ((str_eq_iff k say).0 hit) (rw (miss, other, hit) at e)
        | inr none' ↦ cc (rw (miss, other, none') at e)
      ]
    ]
  ]

  -- What is accepted is exactly what was sent: no field is dropped.
  check_keeps :
      check_command k s w p now ≡ ok c
      → (c.kind ≡ k) × (c.session_id ≡ s) × (c.workspace ≡ w) × (c.prompt ≡ p)
  unfolding check_command valid_targeted valid_spawn valid_say
  check_keeps e = (ground arith, ground arith, ground arith, ground arith)

-- The converse: every command of one of the shapes is accepted.
Shape-check :
    (now : Time) (c : Command)
    → Shape now c
    → check_command c.kind c.session_id c.workspace c.prompt now ≡ ok c
unfolding check_command valid_targeted valid_spawn valid_say str_eq
Shape-check now c (targeted (inl h) a b d e f g) = rw h (ground arith)
Shape-check now c (targeted (inr h) a b d e f g) = rw h (ground arith)
Shape-check now c (spawned h a b d e f g) = rw h (ground arith)
Shape-check now c (said h a b d e f g i) = rw h (ground arith)

module _ (k s w p : Bytes) (now : Time) (c : Command) where
  -- ValidCommand accepts exactly the commands of one of the shapes whose fields are the trimmed
  -- arguments.
  pub valid_command-exact : (valid_command k s w p now ≡ ok c) ↔ (
      Shape now c
      × (c.kind ≡ trim_space k)
      × (c.session_id ≡ trim_space s)
      × (c.workspace ≡ trim_space w)
      × (c.prompt ≡ trim_space p))
  unfolding valid_command
  valid_command-exact = (
    λ e.
        let keeps =
          check_keeps (trim_space k) (trim_space s) (trim_space w) (trim_space p) now c e in
        (
          check-Shape (trim_space k) (trim_space s) (trim_space w) (trim_space p) now c e,
          keeps.0,
          keeps.1,
          keeps.2,
          keeps.3,
        ),
    λ (sh, e, f, g, h). rw (← e, ← f, ← g, ← h) (Shape-check now c sh),
  )

trimmed : (x y : Bytes) → x ≡ trim_space y → x ≡ trim_space x
trimmed x y e = rw e (sym (trim_space_idem y))

-- A command that was accepted is accepted again, unchanged: validation on a second rail yields
-- the same command with the same key.
pub valid_command-again :
    (k s w p : Bytes) (now : Time) (c : Command)
    → valid_command k s w p now ≡ ok c
    → valid_command c.kind c.session_id c.workspace c.prompt now ≡ ok c
valid_command-again k s w p now c e =
    let (sh, ek, es, ew, ep) = (valid_command-exact k s w p now c).0 e in
    (valid_command-exact c.kind c.session_id c.workspace c.prompt now c).1
      (sh, trimmed _ k ek, trimmed _ s es, trimmed _ w ew, trimmed _ p ep)
