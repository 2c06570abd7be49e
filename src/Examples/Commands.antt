-- ===== src/Examples/Commands.antt =====
-- Commands.
use rook_host.Base.{◌≡◌, ◌↔◌, ◌++◌, refl, []}
use rook_host.Base.Bytes.{codes, str_eq}
use rook_host.Base.Decimal.{unix_minute}
use rook_host.Base.Time.{Time}
use rook_host.Base.Result.{ok}
use rook_host.Projection.Text.{trim_space, fnv8}
use rook_host.Projection.Command.{Command, compact, say, valid_command}
use rook_host.Projection.Command.Shape.{Shape, valid_command-exact}
use rook_host.Projection.Command.Key.{natural_key}

-- " compact " of the session "s1", at 5.
abbrev compacting : Command
compacting = record {
  id = codes "compact:s1";
  kind = compact;
  session_id = codes "s1";
  workspace = [];
  prompt = [];
  at = 5;
}

valid_command-exact_example :
    (valid_command (codes " compact ") (codes "s1") [] [] 5 ≡ ok compacting) ↔ (
      Shape 5 compacting
      × (compact ≡ trim_space (codes " compact "))
      × (codes "s1" ≡ trim_space (codes "s1"))
      × ([] ≡ trim_space [])
      × ([] ≡ trim_space []))
valid_command-exact_example =
    valid_command-exact (codes " compact ") (codes "s1") [] [] 5 compacting

-- "say hi" to the session "s1", at a time.
abbrev greeting : Time → Command
greeting now = record {
  id = codes "say:s1:" ++ fnv8 (codes "hi@-1035593280");
  kind = say;
  session_id = codes "s1";
  workspace = [];
  prompt = codes "hi";
  at = now;
}

greeting_accepted :
    (valid_command say (codes "s1") [] (codes "hi") 5 ≡ ok (greeting 5))
    × (valid_command say (codes "s1") [] (codes "hi") 6 ≡ ok (greeting 6))
unfolding valid_command str_eq trim_space unix_minute
greeting_accepted = (refl, refl)

natural_key_example :
    ((greeting 5).kind ≡ (greeting 6).kind)
    × ((greeting 5).session_id ≡ (greeting 6).session_id)
    × ((greeting 5).workspace ≡ (greeting 6).workspace)
natural_key_example =
    natural_key 5 6 (greeting 5) (greeting 6)
      ((valid_command-exact say (codes "s1") [] (codes "hi") 5 (greeting 5)).0
        greeting_accepted.0).0
      ((valid_command-exact say (codes "s1") [] (codes "hi") 6 (greeting 6)).0
        greeting_accepted.1).0
      refl
