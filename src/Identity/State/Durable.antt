-- ===== src/Identity/State/Durable.antt =====
-- An identity that was created is the identity that every later boot loads, and its file is never
-- replaced.
use rook_host.Base.{
  ◌≡◌, ◌⊎◌, refl, Option, none, some, Bool, true, false, arith, Option-cases, inl, inr, is_some,
  length,
}
use rook_host.Base.Bytes.{Bytes, is_empty}
use rook_host.Base.Result.{ok, is_ok, Result-cases}
use rook_host.Base.Disk.{Disk, Fault}
use rook_host.Crypto.{Crypto}
use rook_host.Identity.Ids.{host_id_for}
use rook_host.Identity.Uuid.{Bytes16, hex, random_uuid}
use rook_host.Identity.State.{
  Identity, StateFile, Draws, Platform, load, self_signed_tls, mint, store, create, load_read,
  load_or_create,
}

is_empty-random_uuid : (b : Bytes16) → is_empty (random_uuid b) ≡ false
unfolding random_uuid hex
is_empty-random_uuid b = refl

module _ (crypto : Crypto) (platform : Platform) where
  -- What mint puts in the file.
  record IsMinted (f : StateFile) (id : Identity) : Type 0 where
    entropy : Bytes
    generated : id.key ≡ platform.generate_key entropy
    seed : f.host_seed ≡ platform.encode64 (platform.seed id.key)
    pair : platform.x509_key_pair f.tls_cert_pem f.tls_key_pem ≡ some id.tls_cert
    domain : f.trust_domain_id ≡ id.trust_domain_id
    named : is_empty id.trust_domain_id ≡ false

  mint-IsMinted :
      (draws : Draws) (f : StateFile) (id : Identity)
      → mint crypto platform draws ≡ ok (f, id)
      → IsMinted f id
  unfolding mint
  mint-IsMinted draws f id h = elim (Option-cases draws.host_entropy) [
    | inl e ↦ absurd (ground (arith, h, e))
    | inr (entropy, e) ↦
        let key = platform.generate_key entropy in
        elim (Result-cases
          (self_signed_tls crypto platform (host_id_for crypto (crypto.public_key key)) draws)) [
            | inl (x, t) ↦ absurd (ground (arith, h, e, t))
            | inr (pems, t) ↦ elim (Option-cases (platform.x509_key_pair pems.0 pems.1)) [
              | inl c ↦ absurd (ground (arith, h, e, t, c))
              | inr (cert, c) ↦ elim (Option-cases draws.uuid) [
                | inl u ↦ absurd (ground (arith, h, e, t, c, u))
                | inr (bytes, u) ↦
                    let k : id.key ≡ key = ground (arith, h, e, t, c, u) in
                    let s : f.host_seed ≡ platform.encode64 (platform.seed key) =
                      ground (arith, h, e, t, c, u) in
                    let p : f.tls_cert_pem ≡ pems.0 = ground (arith, h, e, t, c, u) in
                    let q : f.tls_key_pem ≡ pems.1 = ground (arith, h, e, t, c, u) in
                    let r : id.tls_cert ≡ cert = ground (arith, h, e, t, c, u) in
                    let d : f.trust_domain_id ≡ random_uuid bytes = ground (arith, h, e, t, c, u) in
                    let n : id.trust_domain_id ≡ random_uuid bytes =
                      ground (arith, h, e, t, c, u) in
                    record {
                      entropy = entropy;
                      generated = k;
                      seed = rw (s, k) refl;
                      pair = rw (p, q, r) c;
                      domain = rw (d, n) refl;
                      named = rw (n) (is_empty-random_uuid bytes);
                    }
              ]
            ]
          ]
  ]

  mint-load :
      (f : StateFile) (id : Identity) (raw : Bytes)
      → IsMinted f id
      → platform.unmarshal raw ≡ some f
      → load crypto platform raw ≡ ok id
  unfolding load
  mint-load f id raw m h =
      let d : platform.decode64 f.host_seed ≡ some (platform.seed id.key) =
        rw (m.seed) (platform.decode64-encode64 (platform.seed id.key)) in
      let n : length (platform.seed id.key) ≡ 32 =
        rw (m.generated) (platform.length-seed m.entropy) in
      let k : platform.key_from_seed (platform.seed id.key) ≡ id.key =
        rw (m.generated) (platform.key_from_seed-seed m.entropy) in
      let t : is_empty f.trust_domain_id ≡ false = rw (m.domain) m.named in
      rw (h, d, n, m.pair, t, k, m.domain) refl

  -- Reading a file that loads.
  load_read_file :
      (file : Option Bytes) (raw : Bytes) (draws : Draws) (fault : Fault) (disk : Disk)
      (id : Identity)
      → file ≡ some raw
      → load crypto platform raw ≡ ok id
      → load_read crypto platform file draws fault true disk ≡ (ok id, disk)
  unfolding load_read
  load_read_file none raw draws fault disk id e h = absurd (cc)
  load_read_file (some r) raw draws fault disk id e h =
      let same : r ≡ raw = ground (arith, e) in rw (same, h) refl

  -- What a creation that succeeds leaves.
  create_written :
      (draws : Draws) (fault : Fault) (disk : Disk) (id : Identity)
      → (create crypto platform draws fault disk).0 ≡ ok id
      → (f : StateFile) × (raw : Bytes) × (mint crypto platform draws ≡ ok (f, id))
        × (platform.marshal f ≡ some raw)
        × ((create crypto platform draws fault disk).1.file ≡ some raw)
  unfolding create store
  create_written draws fault disk id h = elim (Result-cases (mint crypto platform draws)) [
    | inl (e, m) ↦ absurd (ground (arith, h, m))
    | inr ((f, i), m) ↦ elim (Option-cases (platform.marshal f)) [
      | inl n ↦ absurd (ground (arith, h, m, n))
      | inr (raw, n) ↦
          let same : i ≡ id = ground (arith, h, m, n) in
          (f, raw, rw (m, same) refl, n, ground (arith, h, m, n))
    ]
  ]

  load_read_durable :
      (file : Option Bytes) (draws : Draws) (fault : Fault) (readable : Bool) (disk : Disk)
      (id : Identity)
      → ((f : StateFile)
          → (i : Identity) → mint crypto platform draws ≡ ok (f, i)
          → platform.Faithful f)
      → disk.file ≡ file
      → (load_read crypto platform file draws fault readable disk).0 ≡ ok id
      → (raw : Bytes) × ((load_read crypto platform file draws fault readable disk).1.file
          ≡ some raw)
        × (load crypto platform raw ≡ ok id)
  unfolding load_read
  load_read_durable none draws fault readable disk id faithful e h =
      let (f, raw, m, n, w) = create_written draws fault disk id h in
      (
        raw,
        w,
        mint-load f id raw (mint-IsMinted draws f id m)
            (platform.unmarshal-marshal f raw (faithful f id m) n),
      )
  load_read_durable (some raw) draws fault readable disk id faithful e h =
      (raw, e, ground (arith, h))

  -- An identity that LoadOrCreate returned, whether it loaded or created it, is the one that every
  -- later call returns when it can read the file, and none of them changes the disk. The file that
  -- a creation writes is assumed to be faithful JSON: its texts are valid UTF-8, its time in range.
  pub load_or_create_durable :
      (draws draws' : Draws) (fault fault' : Fault) (readable : Bool) (disk : Disk) (id : Identity)
      → ((f : StateFile)
          → (i : Identity) → mint crypto platform draws ≡ ok (f, i)
          → platform.Faithful f)
      → (load_or_create crypto platform draws fault readable disk).0 ≡ ok id
      → let disk' = (load_or_create crypto platform draws fault readable disk).1 in
        load_or_create crypto platform draws' fault' true disk' ≡ (ok id, disk')
  unfolding load_or_create
  load_or_create_durable draws draws' fault fault' readable disk id faithful h =
      let (raw, w, l) = load_read_durable disk.file draws fault readable disk id faithful refl h in
      load_read_file _ raw draws' fault' _ id w l

  create-IsAtomic :
      (draws : Draws) (fault : Fault) (disk : Disk)
      → disk.file ≡ none
      → let r = create crypto platform draws fault disk in is_some r.1.file ≡ is_ok r.0
  unfolding create store
  create-IsAtomic draws fault disk e = elim (Result-cases (mint crypto platform draws)) [
    | inl (x, m) ↦ ground (arith, e, m)
    | inr ((f, i), m) ↦ elim (Option-cases (platform.marshal f)) [
      | inl n ↦ ground (arith, e, m, n)
      | inr (raw, n) ↦ ground (arith, e, m, n)
    ]
  ]

  load_read-IsAtomic :
      (file : Option Bytes) (draws : Draws) (fault : Fault) (readable : Bool) (disk : Disk)
      → disk.file ≡ file
      → let r = load_read crypto platform file draws fault readable disk in
        (r.1 ≡ disk) ⊎ ((disk.file ≡ none) × (is_some r.1.file ≡ is_ok r.0))
  unfolding load_read
  load_read-IsAtomic none draws fault readable disk e = inr (e, create-IsAtomic draws fault disk e)
  load_read-IsAtomic (some raw) draws fault readable disk e = inl refl

  -- Under every fault, LoadOrCreate leaves a disk with a state file exactly as it was; without one,
  -- either it fails and there is still none, or it returns an identity and there is one.
  pub load_or_create-IsAtomic :
      (draws : Draws) (fault : Fault) (readable : Bool) (disk : Disk)
      → let r = load_or_create crypto platform draws fault readable disk in
        (r.1 ≡ disk) ⊎ ((disk.file ≡ none) × (is_some r.1.file ≡ is_ok r.0))
  unfolding load_or_create
  load_or_create-IsAtomic draws fault readable disk =
      load_read-IsAtomic disk.file draws fault readable disk refl
