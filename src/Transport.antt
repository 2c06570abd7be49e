-- ===== src/Transport.antt =====
-- transport/transport.go: the listener, and the direct addresses that a QR payload hints at. The methods of net.IP are those of the standard library.
pub mod Hints
pub mod Failure
use rook_host.Base.{
  ℕ, ◌+◌, ◌/◌, ◌-◌, ◌*◌, Option, none, some, Bool, true, false, ◌&&◌, ◌||◌, List, [], ◌∷◌, ◌++◌,
  length, get_or, ◌==◌, if◌then◌else◌,
}
use rook_host.Base.Bytes.{Bytes}
use rook_host.Base.Decimal.{decimal}
use rook_host.Base.Time.{second}
use rook_host.Base.Result.{Result, ok, err}

-- A net.Addr: a *net.IPNet with its IP, or something else.
pub data NetAddr : Type 0 where
  ip_net : Bytes → NetAddr
  other_addr : NetAddr

-- The four bytes of an IPv4 address.
pub record V4 : Type 0 where
  pub a : ℕ
  pub b : ℕ
  pub c : ℕ
  pub d : ℕ

unfoldable pub v4_at : ℕ → Bytes → V4
v4_at i ip = record {
  a = get_or ip i 0;
  b = get_or ip (i + 1) 0;
  c = get_or ip (i + 2) 0;
  d = get_or ip (i + 3) 0;
}

-- The bytes begin with these.
abbrev pub has_bytes : List ℕ → Bytes → Bool
has_bytes [] ip = true
has_bytes (x ∷ xs) [] = false
has_bytes (x ∷ xs) (b ∷ ip) = (x == b) && has_bytes xs ip

-- The prefix of an IPv4 address in IPv6 form.
abbrev pub v4_in_v6 : Bytes
v4_in_v6 = 0 ∷ 0 ∷ 0 ∷ 0 ∷ 0 ∷ 0 ∷ 0 ∷ 0 ∷ 0 ∷ 0 ∷ 255 ∷ 255 ∷ []

abbrev pub v6_loopback : Bytes
v6_loopback = 0 ∷ 0 ∷ 0 ∷ 0 ∷ 0 ∷ 0 ∷ 0 ∷ 0 ∷ 0 ∷ 0 ∷ 0 ∷ 0 ∷ 0 ∷ 0 ∷ 0 ∷ 1 ∷ []

-- To4
unfoldable pub to4 : Bytes → Option V4
unfolding v4_at
to4 ip =
    if length ip == 4
    then some (v4_at 0 ip)
    else if (length ip == 16) && has_bytes v4_in_v6 ip
    then some (v4_at 12 ip)
    else none

-- IsLoopback
unfoldable pub is_loopback : Bytes → Bool
unfolding to4
is_loopback ip = elim (to4 ip) [
  | some v ↦ v.a == 127
  | none ↦ (length ip == 16) && has_bytes v6_loopback ip
]

-- IsLinkLocalUnicast: 169.254.0.0/16 and fe80::/10
unfoldable pub is_link_local : Bytes → Bool
unfolding to4
is_link_local ip = elim (to4 ip) [
  | some v ↦ (v.a == 169) && (v.b == 254)
  | none ↦ (length ip == 16) && (get_or ip 0 0 == 254) && (get_or ip 1 0 / 64 == 2)
]

-- String, of an IPv4 address
unfoldable pub v4_text : V4 → Bytes
v4_text v = decimal v.a ++ (b'.' ∷ (decimal v.b ++ (b'.' ∷ (decimal v.c ++ (b'.' ∷ decimal v.d)))))

-- The loop of Addrs.
unfoldable pub addr_loop : List NetAddr → List Bytes
unfolding to4 is_loopback is_link_local v4_text
addr_loop [] = []
addr_loop (other_addr ∷ rest_addrs) = addr_loop rest_addrs
addr_loop (ip_net ip ∷ rest_addrs) =
    let rest = addr_loop rest_addrs in
    if is_loopback ip || is_link_local ip
    then rest
    else elim (to4 ip) [ none ↦ rest | some v ↦ v4_text v ∷ rest ]

-- Addrs; `none` is a failure to list the interfaces.
unfoldable pub addrs : Option (List NetAddr) → List Bytes
unfolding addr_loop
addrs none = []
addrs (some found) = addr_loop found

-- The channel `done` of capacity one: what it holds, and whether it is closed.
pub record Done (E : Type 0) : Type 0 where
  pub held : Option E
  pub closed : Bool

abbrev pub new_done : {E : Type 0} → Done E
new_done = record { held = none; closed = false }

-- What ServeTLS returns: ErrServerClosed, or another error.
pub data ServeEnd (E : Type 0) : Type 0 where
  server_closed : ServeEnd E
  failed : E → ServeEnd E

-- A Listener, with what it configures: the TLS version, and the read header timeout in nanoseconds.
-- `serving` is the goroutine that runs ServeTLS, `closing` that Shutdown was called.
pub record Listener (E : Type 0) : Type 0 where
  pub port : ℕ
  pub min_version : ℕ
  pub read_header_timeout : ℕ
  pub serving : Bool
  pub closing : Bool
  pub done : Done E

-- tls.VersionTLS13
abbrev pub version_tls13 : ℕ
version_tls13 = 772

-- Listen, by what net.Listen answers: an error, or the port that it bound.
unfoldable pub listen : {E : Type 0} → Result E ℕ → Result E (Listener E)
listen (err e) = err e
listen (ok port) = ok (record {
  port = port;
  min_version = version_tls13;
  read_header_timeout = 10 * second;
  serving = true;
  closing = false;
  done = new_done;
})

-- The goroutine once ServeTLS has returned: an error other than ErrServerClosed is sent, and the
-- channel is closed.
unfoldable pub serve_returns : {E : Type 0} → ServeEnd E → Listener E → Listener E
serve_returns server_closed l = record l { serving = false; done = record l.done { closed = true } }
serve_returns (failed e) l = record l {
  serving = false;
  done = record { held = some e; closed = true };
}

-- Port
abbrev pub listener_port : {E : Type 0} → Listener E → ℕ
listener_port l = l.port

-- Err: a receive that does not wait.
unfoldable pub listener_err : {E : Type 0} → Listener E → Option E × Listener E
listener_err l = (l.done.held, record l { done = record l.done { held = none } })

-- Shutdown
abbrev pub shutdown : {E : Type 0} → Listener E → Listener E
shutdown l = record l { closing = true }
