-- ===== src/Bonjour/Advertised.antt =====
-- What a device that browses finds of an advertisement.
use rook_host.Base.{
  ℕ, ◌<◌, ◌%◌, ◌/◌, ◌≡◌, ◌≢◌, ◌++◌, refl, ap, ◌∙◌, map, some, List, [], ◌∷◌, length, arith, inl,
  inr, ◌==◌, if◌then◌else◌,
}
use rook_host.Base.Bytes.{Bytes, codes, str_eq}
use rook_host.Base.Result.{ok, err, Result-cases}
use rook_host.Bonjour.{
  Info, txt, txt_record, network_port, Registration, Config, Responder, empty_record,
  register_failed, service_type, advertise_system, advertise_dnssd, entry, txt_keys,
}
use rook_host.Bonjour.Txt.{read_txt, entries, txt_record_wire, network_port-swaps}

-- The hint that a browsing device reads.
abbrev pub hint : Info → List Bytes
hint i =
    codes "v=1"
    ∷ (codes "hid=" ++ i.host_id)
    ∷ (codes "td=" ++ i.trust_domain_id)
    ∷ (codes "pv=" ++ i.protocol_version)
    ∷ []

entries-hint : (i : Info) → entries i ≡ hint i
unfolding txt str_eq
entries-hint i = refl

-- The registration of a record that was made.
abbrev registration : Info → Bytes → Registration
registration i out = record {
  name = i.name;
  service_type = codes "_rook-link._tcp";
  port = network_port i.port;
  txt_length = length out % 65536;
  txt_record = out;
}

-- With a record that is not empty, the daemon decides.
advertise_made :
    (daemon : Registration → ℕ) (i : Info) (out : Bytes)
    → txt_record (txt i) ≡ ok out
    → 0 < length out
    → advertise_system daemon i ≡ (
        if daemon (registration i out) == 0
        then ok (registration i out)
        else err (register_failed (daemon (registration i out))))
unfolding advertise_system
advertise_made daemon i [] h n = absurd (omega arith)
advertise_made daemon i (b ∷ out) h n = rw (h, advertise_system) refl

system_nonempty :
    (daemon : Registration → ℕ) (i : Info) → advertise_system daemon i ≢ err empty_record
unfolding advertise_system
system_nonempty daemon i h = elim (Result-cases (txt_record (txt i))) [
  | inl (k, e) ↦ absurd (ground (arith, e))
  | inr (out, e) ↦
      let (read, nonempty, bound) = txt_record_wire i out e in
      let made = advertise_made daemon i out e nonempty in absurd (ground (arith, made))
]

system_registers :
    (daemon : Registration → ℕ) (i : Info) (r : Registration)
    → advertise_system daemon i ≡ ok r
    → (r.name ≡ i.name)
      × (read_txt r.txt_record ≡ some (hint i))
      × (r.txt_length ≡ length r.txt_record)
      × (i.port < 65536 → (r.port % 256 ≡ i.port / 256) × (r.port / 256 ≡ i.port % 256))
unfolding advertise_system
system_registers daemon i r h = elim (Result-cases (txt_record (txt i))) [
  | inl (k, e) ↦ absurd (ground (arith, e))
  | inr (out, e) ↦
      let (read, nonempty, bound) = txt_record_wire i out e in
      let made = advertise_made daemon i out e nonempty in
      let is : r ≡ registration i out = ground (arith, made) in
      rw is (refl, read ∙ ap some (entries-hint i), omega arith, network_port-swaps i.port)
]

package_registers :
    (p : Responder) (i : Info) (c : Config)
    → advertise_dnssd p i ≡ ok c
    → (c.name ≡ i.name) × (c.port ≡ i.port) × (map (entry c.text) txt_keys ≡ hint i)
unfolding advertise_dnssd
package_registers p i c h =
    let is : c
        ≡ record { name = i.name; service_type = service_type; text = txt i; port = i.port } =
      ground arith in
    rw is (refl, refl, entries-hint i)

-- What Advertise registers is the advertisement. With the system daemon: the name; a TXT record of
-- which the length is told in full and from which a reader of the DNS wire form reads the four hints
-- in their order; and, for a 16-bit port, that port with its two bytes swapped; and it never panics on an
-- empty record. With the responder package: the name, the port, and a text with the same hints.
pub registered_as_advertised :
    (daemon : Registration → ℕ) (p : Responder) (i : Info)
    → (advertise_system daemon i ≢ err empty_record)
      × ((r : Registration)
          → advertise_system daemon i ≡ ok r
          → (r.name ≡ i.name)
            × (read_txt r.txt_record ≡ some (hint i))
            × (r.txt_length ≡ length r.txt_record)
            × (i.port < 65536 → (r.port % 256 ≡ i.port / 256) × (r.port / 256 ≡ i.port % 256)))
      × ((c : Config)
          → advertise_dnssd p i ≡ ok c
          → (c.name ≡ i.name) × (c.port ≡ i.port) × (map (entry c.text) txt_keys ≡ hint i))
registered_as_advertised daemon p i =
    (system_nonempty daemon i, system_registers daemon i, package_registers p i)
