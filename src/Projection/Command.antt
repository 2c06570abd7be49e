-- ===== src/Projection/Command.antt =====
-- Answers and commands of projection/projection.go: ValidAnswer and ValidCommand. The clock's
-- reading is an argument.
pub mod Shape
pub mod Key
use rook_host.Base.{ℕ, ◌+◌, Bool, ◌&&◌, ◌||◌, not, List, [], ◌∷◌, ◌++◌, length, ltb, if◌then◌else◌}
use rook_host.Base.Bytes.{Bytes, codes, str_eq, is_empty}
use rook_host.Base.Time.{Time}
use rook_host.Base.Decimal.{unix_minute}
use rook_host.Base.Result.{Result, ok, err}
use rook_host.Projection.Text.{trim_space, fnv8}

pub data ProjectionError : Type 0 where
  bad_answer bad_command : ProjectionError

abbrev pub max_ask_id_len : ℕ
max_ask_id_len = 128

abbrev pub max_answer_len : ℕ
max_answer_len = 4096

pub record Answer : Type 0 where
  pub ask_id : Bytes
  pub text : Bytes
  pub at : Time

unfoldable pub valid_answer : Bytes → Bytes → Time → Result ProjectionError Answer
valid_answer ask_id text now =
    let ask_id' = trim_space ask_id in
    let text' = trim_space text in
    if is_empty ask_id'
      || ltb max_ask_id_len (length ask_id')
      || is_empty text'
      || ltb max_answer_len (length text')
    then err bad_answer
    else ok (record { ask_id = ask_id'; text = text'; at = now })

pub record Command : Type 0 where
  pub id : Bytes
  pub kind : Bytes
  pub session_id : Bytes
  pub workspace : Bytes
  pub prompt : Bytes
  pub at : Time

abbrev pub compact : Bytes
compact = codes "compact"

abbrev pub resume : Bytes
resume = codes "resume"

abbrev pub spawn : Bytes
spawn = codes "spawn"

abbrev pub say : Bytes
say = codes "say"

abbrev pub command_kinds : List Bytes
command_kinds = compact ∷ resume ∷ spawn ∷ say ∷ []

-- case "compact", "resume"
unfoldable pub valid_targeted :
    Bytes → Bytes → Bytes → Bytes → Time → Result ProjectionError Command
valid_targeted kind session_id workspace prompt now =
    if is_empty session_id
      || ltb max_ask_id_len (length session_id)
      || not (is_empty workspace)
      || not (is_empty prompt)
    then err bad_command
    else ok (record {
      id = kind ++ (codes ":" ++ session_id);
      kind = kind;
      session_id = session_id;
      workspace = [];
      prompt = [];
      at = now;
    })

-- case "spawn"
unfoldable pub valid_spawn : Bytes → Bytes → Bytes → Bytes → Time → Result ProjectionError Command
valid_spawn kind session_id workspace prompt now =
    if is_empty workspace
      || ltb 200 (length workspace)
      || ltb max_answer_len (length prompt)
      || not (is_empty session_id)
    then err bad_command
    else ok (record {
      id = codes "spawn:" ++ (workspace ++ (codes ":" ++ fnv8 prompt));
      kind = kind;
      session_id = [];
      workspace = workspace;
      prompt = prompt;
      at = now;
    })

-- case "say"
unfoldable pub valid_say : Bytes → Bytes → Bytes → Bytes → Time → Result ProjectionError Command
valid_say kind session_id workspace prompt now =
    if is_empty session_id
      || ltb max_ask_id_len (length session_id)
      || is_empty prompt
      || ltb max_answer_len (length prompt)
      || not (is_empty workspace)
    then err bad_command
    else ok (record {
      id =
          codes "say:"
          ++ (session_id ++ (codes ":" ++ fnv8 (prompt ++ (codes "@" ++ unix_minute now))));
      kind = kind;
      session_id = session_id;
      workspace = [];
      prompt = prompt;
      at = now;
    })

-- The switch over the trimmed arguments.
unfoldable pub check_command : Bytes → Bytes → Bytes → Bytes → Time → Result ProjectionError Command
check_command kind session_id workspace prompt now =
    if str_eq kind compact || str_eq kind resume
    then valid_targeted kind session_id workspace prompt now
    else if str_eq kind spawn
    then valid_spawn kind session_id workspace prompt now
    else if str_eq kind say
    then valid_say kind session_id workspace prompt now
    else err bad_command

unfoldable pub valid_command : Bytes → Bytes → Bytes → Bytes → Time → Result ProjectionError Command
unfolding check_command valid_targeted valid_spawn valid_say
valid_command kind session_id workspace prompt now =
    check_command (trim_space kind) (trim_space session_id) (trim_space workspace)
      (trim_space prompt) now
