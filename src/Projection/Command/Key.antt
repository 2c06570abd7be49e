-- ===== src/Projection/Command/Key.antt =====
-- The natural key of a command: its id names its kind and its target.
use Prim.Native.Nat.{bit_xor}
use rook_host.Base.{
  ℕ, zero, suc, ◌/◌, ◌%◌, ◌≡◌, refl, sym, ◌∙◌, ap, inl, inr, [], ◌∷◌, ◌++◌, get_or, length,
  length-append, append_inj, arith,
}
use rook_host.Base.Bytes.{Bytes, codes}
use rook_host.Base.Time.{Time}
use rook_host.Base.Decimal.{unix_minute}
use rook_host.Projection.Text.{fnv8, fnv_loop, hex_digit, hex_digits}
use rook_host.Projection.Command.{Command}
use rook_host.Projection.Command.Shape.{Shape, targeted, spawned, said}

length-hex_digits : (n v : ℕ) → length (hex_digits n v) ≡ n
unfolding hex_digits
length-hex_digits zero v = refl
length-hex_digits (suc n) v = omega (
  arith,
  length-append (hex_digits n (v / 16)) (hex_digit (v % 16) ∷ []),
  length-hex_digits n (v / 16),
)

length-fnv8 : (s : Bytes) → length (fnv8 s) ≡ 8
unfolding fnv8
length-fnv8 s =
    let h = fnv_loop 14695981039346656037 s in
    length-hex_digits 8 (bit_xor h (h / 4294967296) % 4294967296)

-- The target of a key stands before a colon and eight digits.
target_inj :
    (x y p q : Bytes)
    → x ++ (codes ":" ++ fnv8 p) ≡ y ++ (codes ":" ++ fnv8 q)
    → (x ≡ y) × (fnv8 p ≡ fnv8 q)
target_inj x y p q e =
    let sizes : length x ≡ length y = omega (
      arith,
      ap length e,
      length-append x (codes ":" ++ fnv8 p),
      length-append y (codes ":" ++ fnv8 q),
      length-fnv8 p,
      length-fnv8 q,
    ) in
    let split = append_inj x y _ _ sizes e in (split.0, cc split.1)

abbrev second_byte : Bytes → ℕ
second_byte s = get_or s 1 0

-- The second bytes of the four kinds differ, and an id starts with its kind.
second_byte-id : {t : Time} {c : Command} → Shape t c → second_byte c.id ≡ second_byte c.kind
second_byte-id (targeted (inl h) a b w p i at) = rw (i, h)
second_byte-id (targeted (inr h) a b w p i at) = rw (i, h)
second_byte-id (spawned h s a b p i at) = rw (i, h)
second_byte-id (said h a b w p q i at) = rw (i, h)

-- Two accepted commands with the same id are of the same kind and have the same session and the
-- same workspace, whenever they were issued.
pub natural_key :
    (t u : Time) (c d : Command)
    → Shape t c
    → Shape u d
    → c.id ≡ d.id
    → (c.kind ≡ d.kind) × (c.session_id ≡ d.session_id) × (c.workspace ≡ d.workspace)
natural_key t u c d sc sd e = by_kind sc sd
  where
    same_byte : second_byte c.kind ≡ second_byte d.kind
    same_byte = omega (arith, second_byte-id sc, second_byte-id sd, ap second_byte e)

    differ : {j k : Bytes} → c.kind ≡ j → d.kind ≡ k → second_byte j ≡ second_byte k
    differ p q = omega (arith, ap second_byte p, ap second_byte q, same_byte)

    by_kind :
        Shape t c
        → Shape u d
        → (c.kind ≡ d.kind) × (c.session_id ≡ d.session_id) × (c.workspace ≡ d.workspace)
    by_kind (targeted (inl h) a b w p i at) (targeted (inl h') a' b' w' p' i' at') =
        (cc, cc (rw (h, h') at (sym i ∙ e ∙ i')), cc)
    by_kind (targeted (inr h) a b w p i at) (targeted (inr h') a' b' w' p' i' at') =
        (cc, cc (rw (h, h') at (sym i ∙ e ∙ i')), cc)
    by_kind (spawned h s a b p i at) (spawned h' s' a' b' p' i' at') =
        let same = target_inj c.workspace d.workspace c.prompt d.prompt (cc (sym i ∙ e ∙ i')) in
        (cc, cc, same.0)
    by_kind (said h a b w p q i at) (said h' a' b' w' p' q' i' at') =
        let same =
          target_inj c.session_id d.session_id (c.prompt ++ (codes "@" ++ unix_minute t))
            (d.prompt ++ (codes "@" ++ unix_minute u)) (cc (sym i ∙ e ∙ i')) in
        (cc, same.0, cc)
    by_kind (targeted (inl h) a b w p i at) (targeted (inr h') a' b' w' p' i' at') =
        absurd (omega (arith, differ h h'))
    by_kind (targeted (inr h) a b w p i at) (targeted (inl h') a' b' w' p' i' at') =
        absurd (omega (arith, differ h h'))
    by_kind (targeted (inl h) a b w p i at) (spawned h' s' a' b' p' i' at') =
        absurd (omega (arith, differ h h'))
    by_kind (targeted (inr h) a b w p i at) (spawned h' s' a' b' p' i' at') =
        absurd (omega (arith, differ h h'))
    by_kind (targeted (inl h) a b w p i at) (said h' a' b' w' p' q' i' at') =
        absurd (omega (arith, differ h h'))
    by_kind (targeted (inr h) a b w p i at) (said h' a' b' w' p' q' i' at') =
        absurd (omega (arith, differ h h'))
    by_kind (spawned h s a b p i at) (targeted (inl h') a' b' w' p' i' at') =
        absurd (omega (arith, differ h h'))
    by_kind (spawned h s a b p i at) (targeted (inr h') a' b' w' p' i' at') =
        absurd (omega (arith, differ h h'))
    by_kind (spawned h s a b p i at) (said h' a' b' w' p' q' i' at') =
        absurd (omega (arith, differ h h'))
    by_kind (said h a b w p q i at) (targeted (inl h') a' b' w' p' i' at') =
        absurd (omega (arith, differ h h'))
    by_kind (said h a b w p q i at) (targeted (inr h') a' b' w' p' i' at') =
        absurd (omega (arith, differ h h'))
    by_kind (said h a b w p q i at) (spawned h' s' a' b' p' i' at') =
        absurd (omega (arith, differ h h'))
