-- ===== src/Registry/Meaning.antt =====
-- What the operations of the registry mean for a map from ids to devices, in words of its own:
-- the capabilities that are recognized, and the changes of an entry.
use mathlib.Core.List.{append_assoc, append-nil}
use rook_host.Base.{
  ◌≡◌, ◌∙◌, ap, sym, refl, Option, none, some, Bool, true, not, ◌||◌, List, [], ◌∷◌, ◌++◌, length,
  ◌==◌, if◌then◌else◌, arith, Bool-cases, inl, inr,
}
use rook_host.Base.Bytes.{Bytes, codes, str_eq_iff, contains, contains-append}
use rook_host.Base.Time.{Time}
use rook_host.Base.Map.{Map, insert}
use rook_host.Registry.Book.{Device, known_capability, keep_capabilities}

-- The capabilities of the protocol.
abbrev pub vocabulary : List Bytes
vocabulary =
    codes "status.read" ∷ codes "agent.answer" ∷ codes "agent.command" ∷ codes "session.read" ∷ []

-- Without the names in a list.
unfoldable pub without : List Bytes → List Bytes → List Bytes
without ks [] = []
without ks (x ∷ xs) = let rest = without ks xs in if contains ks x then rest else x ∷ rest

-- The names of the vocabulary in a list, each at its first occurrence.
unfoldable pub recognized : List Bytes → List Bytes
recognized [] = []
recognized (c ∷ cs) =
    let rest = recognized cs in if contains vocabulary c then c ∷ without (c ∷ []) rest else rest

known-vocabulary : (c : Bytes) → known_capability c ≡ contains vocabulary c
unfolding known_capability contains
known-vocabulary c = ground (
  arith,
  str_eq_iff c (codes "status.read"),
  str_eq_iff (codes "status.read") c,
  str_eq_iff c (codes "agent.answer"),
  str_eq_iff (codes "agent.answer") c,
  str_eq_iff c (codes "agent.command"),
  str_eq_iff (codes "agent.command") c,
  str_eq_iff c (codes "session.read"),
  str_eq_iff (codes "session.read") c,
)

without_none : (xs : List Bytes) → without [] xs ≡ xs
unfolding without contains
without_none [] = refl
without_none (x ∷ xs) = ap (λ ys. x ∷ ys) (without_none xs)

without-without : (ks js xs : List Bytes) → without ks (without js xs) ≡ without (ks ++ js) xs
unfolding without
without-without ks js [] = refl
without-without ks js (x ∷ xs) = ground (arith, contains-append ks js x, without-without ks js xs)

without_seen :
    (ks : List Bytes) (c : Bytes) (xs : List Bytes)
    → contains ks c ≡ true
    → without (ks ++ c ∷ []) xs ≡ without ks xs
unfolding without contains
without_seen ks c [] h = refl
without_seen ks c (x ∷ xs) h =
    ground (arith, contains-append ks (c ∷ []) x, str_eq_iff c x, without_seen ks c xs h)

keep_capabilities-without :
    (kept cs : List Bytes) → keep_capabilities kept cs ≡ kept ++ without kept (recognized cs)
unfolding keep_capabilities recognized without
keep_capabilities-without kept [] = sym (append-nil kept)
keep_capabilities-without kept (c ∷ cs) =
    let later = keep_capabilities-without (kept ++ c ∷ []) cs in
    let same = keep_capabilities-without kept cs in
    let rest = recognized cs in
    elim (Bool-cases (contains vocabulary c)) [
      | inr u ↦ rw (known-vocabulary c, u) same
      | inl k ↦ elim (Bool-cases (contains kept c)) [
        | inl h ↦
            rw
              (
                known-vocabulary c,
                k,
                h,
                without-without kept (c ∷ []) rest,
                without_seen kept c rest h,
              )
              same
        | inr h ↦
            rw (known-vocabulary c, k, h, without-without kept (c ∷ []) rest)
              (later ∙ append_assoc kept (c ∷ []) (without (kept ++ c ∷ []) rest))
      ]
    ]

-- The loop of Add and SetCapabilities keeps what is recognized.
pub keep_capabilities-recognized : (cs : List Bytes) → keep_capabilities [] cs ≡ recognized cs
keep_capabilities-recognized cs = keep_capabilities-without [] cs ∙ without_none (recognized cs)

-- What Add makes of a device, and when it refuses it.
abbrev pub entered : Device → Device
entered d = record d { capabilities = recognized d.capabilities }

abbrev pub rejects : Device → Bool
rejects d = not (length d.public_key == 32) || (length (recognized d.capabilities) == 0)

-- The first revocation stands.
abbrev pub marked : Option Time → Time → Option Time
marked none at = some at
marked (some first) at = some first

-- A change of the entry under a key, if there is one.
abbrev pub change : Bytes → (Device → Device) → Map Device → Map Device
change key f m = elim (m key) [ none ↦ m | some d ↦ insert key (f d) m ]
