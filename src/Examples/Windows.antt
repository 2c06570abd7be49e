-- ===== src/Examples/Windows.antt =====
-- Pairing windows and nonces.
use rook_host.Base.{◌≡◌, ◌≤◌, ◌+◌, refl, false, some, List, [], ◌∷◌, arith}
use rook_host.Base.Bytes.{Bytes, codes, str_eq, str_ne}
use rook_host.Base.Base64.{encode}
use rook_host.Pairing.Window.{Manager, no_window}
use rook_host.Pairing.Window.Once.{
  Event, opens, closes, redeems, successes, opened, standing, successes-le-opened,
}
use rook_host.Link.Nonces.{Nonces, new_nonces, mint, consume}
use rook_host.Link.Nonces.Once.{NonceOp, mints, consumes, run, consume_once}

-- A window is opened, its secret is redeemed twice, and another is opened and closed.
abbrev history : List Event
history =
    opens (some (1 ∷ 2 ∷ 3 ∷ [])) 10
    ∷ redeems (encode (1 ∷ 2 ∷ 3 ∷ [])) 11
    ∷ redeems (encode (1 ∷ 2 ∷ 3 ∷ [])) 12
    ∷ opens (some (4 ∷ [])) 13
    ∷ closes
    ∷ []

successes-le-opened_example : successes no_window history ≤ standing no_window + opened history
successes-le-opened_example = successes-le-opened no_window history

abbrev window : Manager
window = record { secret = codes "abc"; expires = 100 }

abbrev raw : Bytes
raw = 1 ∷ 2 ∷ 3 ∷ []

abbrev issued : Nonces
issued = (mint new_nonces (some raw) (codes "phone") 10).1

-- Another nonce is minted and used in between.
abbrev between : List NonceOp
between = mints (some (9 ∷ [])) (codes "phone") 20 ∷ consumes (9 ∷ []) (codes "phone") 21 ∷ []

other_raw : str_eq (9 ∷ []) raw ≡ false
unfolding str_eq
other_raw = refl

consume_once_example :
    (consume (run (consume issued raw (codes "tablet") 15).1 between) raw (codes "phone") 30).0
    ≡ false
consume_once_example =
    consume_once issued raw (codes "tablet") (codes "phone") 15 30 between
      (omega arith, (omega arith, (omega arith, tt)))
      (((omega arith, tt), str_ne (9 ∷ []) raw other_raw), (tt, tt))
