-- ===== src/Rpc.antt =====
-- What the generated services of gen/rook share: how the standard library's mux finds the handler
-- of a path, and how a client makes the URL of a call.
pub mod Link
pub mod Edge
pub mod Routes
use rook_host.Base.{
  Option, none, some, Bool, ◌&&◌, List, [], ◌∷◌, length, ltb, ◌==◌, if◌then◌else◌, map, ◌++◌,
}
use rook_host.Base.Bytes.{Bytes, codes, is_empty, has_prefix}

-- One request and one response, or a stream of responses.
pub data CallKind : Type 0 where
  unary server_stream : CallKind

-- strings.TrimRight(s, "/")
unfoldable pub trim_slashes : Bytes → Bytes
trim_slashes [] = []
trim_slashes (b ∷ s) =
    let rest = trim_slashes s in if is_empty rest && (b == b'/') then [] else b ∷ rest

-- A pattern that ends in a slash, with the handler mounted there: what it finds for a path, or
-- nothing where it answers http.NotFound.
abbrev pub Mount : Type 0 → Type 0
Mount M = Bytes × (Bytes → Option M)

abbrev pattern_length : {M : Type 0} → Option (Mount M) → Bytes
pattern_length none = []
pattern_length (some (pattern, handler)) = pattern

-- http.ServeMux, for a path that it does not redirect: the longest pattern that begins the path.
unfoldable pub best_mount :
    {M : Type 0} → Bytes → Option (Mount M) → List (Mount M) → Option (Mount M)
best_mount path best [] = best
best_mount path best (m ∷ ms) =
    best_mount path
      (if has_prefix path m.0 && ltb (length (pattern_length best)) (length m.0)
        then some m
        else best)
      ms

unfoldable pub mux : {M : Type 0} → List (Mount M) → Bytes → Option M
unfolding best_mount
mux mounts path = elim (best_mount path none mounts) [
  | none ↦ none
  | some (pattern, handler) ↦ handler path
]

-- The text of the error that an unimplemented method answers, with the code unimplemented.
abbrev pub not_implemented : Bytes → Bytes
not_implemented name = name ++ codes " is not implemented"
