-- ===== src/Edgeclient/Events/Ids.antt =====
-- Event ids tell the outcomes and the updates of a command apart.
use rook_host.Base.{
  ℕ, ◌<◌, ◌≡◌, refl, ap, ◌∙◌, sym, true, false, [], ◌∷◌, ◌++◌, ◌==◌, some, All-mono, append_inj,
  arith,
}
use rook_host.Base.Bytes.{Bytes, codes}
use rook_host.Base.Decimal.{decimal, is_digit, scan}
use rook_host.Base.Decimal.RoundTrip.{IsNumeral, decimal-IsNumeral, scan-decimal}
use rook_host.Base.Split.{Lacks, Lacks-split}
use rook_host.Edgeclient.Events.{result_id, agent_id}

append_cancel : (s t t' : Bytes) → s ++ t ≡ s ++ t' → t ≡ t'
append_cancel s t t' e = (append_inj s s t t' refl e).1

numeral-Lacks : (s : Bytes) → IsNumeral s → Lacks b'_' s
numeral-Lacks [] n = absurd n
numeral-Lacks (c ∷ s) n = (
  ground (arith, n.0),
  All-mono (λ b. is_digit b ≡ true) (λ b. (b == b'_') ≡ false) s (λ b e. ground (arith, e)) n.1,
)

decimal_inj :
    (i j : ℕ) → i < 18446744073709551616 → j < 18446744073709551616 → decimal i ≡ decimal j → i ≡ j
decimal_inj i j h k e =
    let both : some i ≡ some j = sym (scan-decimal i h) ∙ ap (λ s. scan s 0) e ∙ scan-decimal j k in
    ground (arith, both)

-- The result events of a command have different ids for different statuses, and its session
-- updates for different positions or kinds, so that a repeated report converges and a contradicting
-- one does not pass for it.
pub event_ids_tell :
    (command_id status status' kind kind' : Bytes) (i i' : ℕ)
    → i < 18446744073709551616
    → i' < 18446744073709551616
    → result_id command_id status ≡ result_id command_id status'
    → agent_id command_id i kind ≡ agent_id command_id i' kind'
    → (status ≡ status') × (i ≡ i') × (kind ≡ kind')
unfolding result_id agent_id
event_ids_tell c s s' k k' i i' h h' e f =
    let status =
      append_cancel (codes "_") _ _ (append_cancel c _ _ (append_cancel (codes "devevt_") _ _ e)) in
    let rest =
      append_cancel (codes "_agent_") _ _
        (append_cancel c _ _ (append_cancel (codes "devevt_") _ _ f)) in
    let (same, kind) =
      Lacks-split b'_' (decimal i) (decimal i') k k'
        (numeral-Lacks (decimal i) (decimal-IsNumeral i h))
        (numeral-Lacks (decimal i') (decimal-IsNumeral i' h')) rest in
    (status, decimal_inj i i' h h' same, kind)
