-- ===== src/Edgeclient/Batch.antt =====
-- Batches of events: their numbers, their receipts and their order.
use rook_host.Base.{
  ◌≡◌, ◌⊎◌, refl, true, false, List, [], ◌∷◌, ◌++◌, All, ℕ, arith, inr, if◌then◌else◌,
}
use rook_host.Base.Bytes.{Bytes, str_eq, contains}
use rook_host.Edgesign.Envelope.{EdgeCommand, EdgeEvent}
use rook_host.Edgeclient.Events.{event_type_command_result, event_type_agent_event}
use rook_host.Edgeclient.Protocol.{next_seq}

-- The events are numbered one after the other from the cursor on.
abbrev pub Numbered : ℕ → List EdgeEvent → Type 0
Numbered seq [] = Unit
Numbered seq (ev ∷ evs) = (ev.device_sequence ≡ next_seq seq) × Numbered ev.device_sequence evs

-- The number of the last event.
abbrev pub last_seq : ℕ → List EdgeEvent → ℕ
last_seq seq [] = seq
last_seq seq (ev ∷ evs) = last_seq ev.device_sequence evs

-- The commands whose outcome the events report, in order.
abbrev pub receipts : List EdgeEvent → List Bytes
receipts [] = []
receipts (ev ∷ evs) =
    let rest = receipts evs in
    if str_eq ev.type event_type_command_result then ev.command_id ∷ rest else rest

-- No event but a receipt speaks of a command before its receipt.
abbrev pub IsIntroduced : List Bytes → List EdgeEvent → Type 0
IsIntroduced seen [] = Unit
IsIntroduced seen (ev ∷ evs) =
    ((ev.type ≡ event_type_command_result) ⊎ (contains seen ev.command_id ≡ true))
    × IsIntroduced (ev.command_id ∷ seen) evs

abbrev pub id_of : EdgeCommand → Bytes
id_of cmd = cmd.command_id

-- An event about a session, which the command caused.
abbrev pub IsUpdate : EdgeCommand → EdgeEvent → Type 0
IsUpdate cmd ev = (ev.command_id ≡ cmd.command_id) × (ev.type ≡ event_type_agent_event)

module _ where
  pub Numbered-append :
      (seq : ℕ) (xs ys : List EdgeEvent)
      → Numbered seq xs
      → Numbered (last_seq seq xs) ys
      → Numbered seq (xs ++ ys)
  Numbered-append seq [] ys n m = m
  Numbered-append seq (x ∷ xs) ys n m = (n.0, Numbered-append x.device_sequence xs ys n.1 m)

  pub last_seq-append :
      (seq : ℕ) (xs ys : List EdgeEvent) → last_seq seq (xs ++ ys) ≡ last_seq (last_seq seq xs) ys
  last_seq-append seq [] ys = refl
  last_seq-append seq (x ∷ xs) ys = last_seq-append x.device_sequence xs ys

  -- Updates are no receipts.
  pub receipts_update :
      (cmd : EdgeCommand) (xs ys : List EdgeEvent)
      → All (IsUpdate cmd) xs
      → receipts (xs ++ ys) ≡ receipts ys
  unfolding str_eq
  receipts_update cmd [] ys a = refl
  receipts_update cmd (x ∷ xs) ys a =
      let no : str_eq x.type event_type_command_result ≡ false = rw (a.0.1) refl in
      rw (no) (receipts_update cmd xs ys a.1)

  pub IsIntroduced-update :
      (cmd : EdgeCommand) (seen : List Bytes) (xs ys : List EdgeEvent)
      → contains seen cmd.command_id ≡ true
      → All (IsUpdate cmd) xs
      → ((more : List Bytes) → IsIntroduced more ys)
      → IsIntroduced seen (xs ++ ys)
  unfolding contains
  IsIntroduced-update cmd seen [] ys h a rest = rest seen
  IsIntroduced-update cmd seen (x ∷ xs) ys h a rest = (
    inr (rw (a.0.0) h),
    IsIntroduced-update cmd (x.command_id ∷ seen) xs ys (ground (arith, h)) a.1 rest,
  )
