-- ===== src/Examples/Codecs.antt =====
-- A timestamp codec and a JSON codec with the laws that the interfaces ask for.
use rook_host.Base.{◌≡◌, ◌+◌, ◌*◌, ◌/◌, ◌%◌, some, [], ap, arith}
use rook_host.Registry.Storage.{RegistryFile, JsonCodec}
use rook_host.Link.Wire.{Timestamppb}

abbrev pub seconds_and_nanos : Timestamppb
seconds_and_nanos = record {
  new = λ t. record { seconds = t / 1000000000; nanos = t % 1000000000 };
  as_time = λ t. t.seconds * 1000000000 + t.nanos;
  as_time-new = λ t. omega arith;
}

-- A codec that knows one file, which it writes as the empty text.
abbrev pub one_file : RegistryFile → JsonCodec
one_file known = record {
  marshal = λ f. some [];
  unmarshal = λ raw. some known;
  Faithful = λ f. known ≡ f;
  unmarshal-marshal = λ f raw same written. ap some same;
}
