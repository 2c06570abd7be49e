-- ===== src/Bonjour/Txt.antt =====
-- The TXT record as a reader of the DNS wire form sees it.
use rook_host.Base.{
  ◌<◌, ◌%◌, ◌/◌, ◌*◌, length-append, ℕ, zero, suc, ◌%◌, ◌≤◌, ◌≡◌, refl, sym, ap, Option, none, some,
  List, [], ◌∷◌, ◌++◌, map, length, ltb, All, arith, false, Bool-cases, inl, inr,
}
use mathlib.Core.List.{append_assoc, append-nil}
use rook_host.Base.Bytes.{Bytes}
use rook_host.Base.Map.{Map}
use rook_host.Base.Result.{ok}
use rook_host.Bonjour.{network_port, Info, txt, entry, txt_loop, txt_keys, txt_record}

-- A reader of the wire form: a length byte, then that many bytes, to the end. It stands inside an
-- entry of which `left` bytes are to come.
unfoldable pub read_entry : ℕ → Bytes → Option (List Bytes)
read_entry zero [] = some ([] ∷ [])
read_entry zero (n ∷ s) = elim (read_entry n s) [ none ↦ none | some es ↦ some ([] ∷ es) ]
read_entry (suc left) [] = none
read_entry (suc left) (b ∷ s) = elim (read_entry left s) [
  | none ↦ none
  | some [] ↦ none
  | some (e ∷ es) ↦ some ((b ∷ e) ∷ es)
]

unfoldable pub read_txt : Bytes → Option (List Bytes)
unfolding read_entry
read_txt [] = some []
read_txt (n ∷ s) = read_entry n s

-- The wire form of entries.
unfoldable wire : List Bytes → Bytes
wire [] = []
wire (e ∷ es) = length e ∷ e ++ wire es

read_entry-wire :
    (e : Bytes) (es : List Bytes) → read_entry (length e) (e ++ wire es) ≡ some (e ∷ es)
unfolding read_entry wire
read_entry-wire [] [] = refl
read_entry-wire [] (f ∷ es) = rw (read_entry, read_entry-wire f es) refl
read_entry-wire (b ∷ e) es = rw (read_entry, read_entry-wire e es) refl

read_txt-wire : (es : List Bytes) → read_txt (wire es) ≡ some es
unfolding read_txt wire
read_txt-wire [] = refl
read_txt-wire (e ∷ es) = read_entry-wire e es

abbrev IsShort : Map Bytes → Bytes → Type 0
IsShort kv k = length (entry kv k) ≤ 255

txt_loop-wire :
    (kv : Map Bytes) (ks : List Bytes) (out : Bytes)
    → All (IsShort kv) ks
    → txt_loop kv ks out ≡ ok (out ++ wire (map (entry kv) ks))
unfolding txt_loop wire
txt_loop-wire kv [] out a = ap ok (sym (append-nil out))
txt_loop-wire kv (k ∷ ks) out a =
    let e : ltb 255 (length (entry kv k)) ≡ false = ground (arith, a.0) in
    let m : length (entry kv k) % 256 ≡ length (entry kv k) = omega (arith, a.0) in
    rw (e, m, txt_loop-wire kv ks (out ++ length (entry kv k) ∷ entry kv k) a.1)
      (ap ok (append_assoc out (length (entry kv k) ∷ entry kv k) (wire (map (entry kv) ks))))

txt_loop-IsShort :
    (kv : Map Bytes) (ks : List Bytes) (out out' : Bytes)
    → txt_loop kv ks out ≡ ok out'
    → All (IsShort kv) ks
unfolding txt_loop
txt_loop-IsShort kv [] out out' h = tt
txt_loop-IsShort kv (k ∷ ks) out out' h = elim (Bool-cases (ltb 255 (length (entry kv k)))) [
  | inl e ↦ absurd (ground (arith, h, e))
  | inr e ↦ (
    ground (arith, e),
    txt_loop-IsShort kv ks (out ++ length (entry kv k) % 256 ∷ entry kv k) out'
        (ground (arith, h, e)),
  )
]

-- The entries of an advertisement.
abbrev pub entries : Info → List Bytes
entries i = map (entry (txt i)) txt_keys

length-wire : (es : List Bytes) → All (λ e. length e ≤ 255) es → length (wire es) ≤ 256 * length es
unfolding wire
length-wire [] a = omega arith
length-wire (e ∷ es) a = omega (arith, length-append e (wire es), length-wire es a.1)

-- A record that is made is the wire form of the entries, which are short.
pub txt_record_wire :
    (i : Info) (out : Bytes)
    → txt_record (txt i) ≡ ok out
    → (read_txt out ≡ some (entries i)) × (0 < length out) × (length out ≤ 1024)
unfolding txt_record wire
txt_record_wire i out h =
    let s = txt_loop-IsShort (txt i) txt_keys [] out h in
    let w = txt_loop-wire (txt i) txt_keys [] s in
    let e : out ≡ wire (entries i) = ground (arith, h, w) in
    rw e (read_txt-wire (entries i), omega arith, length-wire (entries i) s)

-- The low byte of a port in network order is the high byte of the port, and the other way round.
pub network_port-swaps :
    (port : ℕ)
    → port < 65536
    → (network_port port % 256 ≡ port / 256) × (network_port port / 256 ≡ port % 256)
unfolding network_port
network_port-swaps port h = omega arith
