-- ===== src/Framing/Arrival.antt =====
-- MessageReader.hpp and MessageWriter.hpp, the two ends of a connection.
use synergy_hogsback.Prelude.{
  ℕ, ◌-◌, ◌%◌, ◌^◌, ◌<◌, ◌≡◌, ◌≢◌, refl, false, ltb, ◌==◌, if◌then◌else◌, List, [], ◌∷◌, ◌++◌, map,
  Option, some, arith, length, take-append, drop-append, length-append, append_assoc, All,
}
use synergy_hogsback.Message.{
  Body, unknown_message, hello_message, route_advertisement, route_revocation, proxy_client_connect,
  server_claim, core_message, which, Message, MessageHeader,
}
use synergy_hogsback.Codec.Bytes.{to_memory, length-to_memory, from_memory-to_memory}
use synergy_hogsback.Framing.Frames.{
  header_bytes, read_bytes, field, read_header, variant_index, body_bytes, write, write_all,
  body_of, read_body, read, read_all,
}

-- The fields that are sent as they are fit their widths.
pub record Fits (h : MessageHeader) : Type 0 where
  pub version : h.version < 2 ^ 8
  pub type : h.type < 2 ^ 8
  pub unused : h.unused < 2 ^ 8
  pub ttl : h.ttl < 2 ^ 8
  pub source : h.source < 2 ^ 32
  pub dest : h.dest < 2 ^ 32

read_bytes-append :
    (xs ys : List ℕ) (n : ℕ) → length xs ≡ n → read_bytes n (xs ++ ys) ≡ some (xs, ys)
unfolding read_bytes
read_bytes-append xs ys n e =
    let enough : ltb (length (xs ++ ys)) (length xs) ≡ false =
      rw (length-append xs ys) (ground arith) in
    rw (← e, enough, take-append xs ys, drop-append xs ys) refl

field-to_memory :
    (n v : ℕ) (rest : List ℕ) → v < 256 ^ n → field n (to_memory n v ++ rest) ≡ some (v, rest)
unfolding field
field-to_memory n v rest h =
    rw
      (read_bytes-append (to_memory n v) rest n (length-to_memory n v), from_memory-to_memory n v h)
      refl

-- The header that arrives.
abbrev pub one_hop : MessageHeader → ℕ → MessageHeader
one_hop h size = record h { size = size; ttl = (if h.ttl == 0 then 0 else h.ttl - 1) }

read_header-header_bytes :
    (h : MessageHeader) (rest : List ℕ)
    → Fits h
    → h.size < 2 ^ 32
    → read_header (header_bytes h ++ rest) ≡ some (one_hop h h.size, rest)
unfolding read_header header_bytes
read_header-header_bytes h rest f k =
    rw
      (
        append_assoc (to_memory 1 h.version) _ rest,
        field-to_memory 1 h.version _ f.version,
        append_assoc (to_memory 1 h.type) _ rest,
        field-to_memory 1 h.type _ f.type,
        append_assoc (to_memory 1 h.unused) _ rest,
        field-to_memory 1 h.unused _ f.unused,
        append_assoc (to_memory 1 h.ttl) _ rest,
        field-to_memory 1 h.ttl _ f.ttl,
        append_assoc (to_memory 4 h.size) _ rest,
        field-to_memory 4 h.size _ k,
        append_assoc (to_memory 4 h.source) _ rest,
        field-to_memory 4 h.source _ f.source,
        field-to_memory 4 h.dest _ f.dest,
      )
      refl

module _ (pack : Body → List ℕ) (unpack : ℕ → List ℕ → Option Body) where
  -- What FlatBuffers promise of a body: packed, it is verified and unpacked as it was.
  abbrev pub IsUnpacked : Body → Type 0
  IsUnpacked b = which b ≢ 0 → unpack (which b) (pack b) ≡ some b

  body_of-body_bytes :
      (b : Body) → IsUnpacked b → body_of unpack (which b) (body_bytes pack b) ≡ some b
  unfolding body_of body_bytes which
  body_of-body_bytes (unknown_message bytes) u = refl
  body_of-body_bytes (hello_message id name) u = u (ground arith)
  body_of-body_bytes (route_advertisement ra) u = u (ground arith)
  body_of-body_bytes (route_revocation rr) u = u (ground arith)
  body_of-body_bytes (proxy_client_connect s) u = u (ground arith)
  body_of-body_bytes (server_claim p s) u = u (ground arith)
  body_of-body_bytes (core_message bytes) u = u (ground arith)

  -- A message and its header that can be sent: the type in the header stands for the body's, where
  -- any type that no body has stands for an unknown message.
  pub record IsSendable (m : MessageHeader × Message) : Type 0 where
    pub fits : Fits m.0
    pub short : length (body_bytes pack m.1.body) < 2 ^ 32
    pub unpacked : IsUnpacked m.1.body
    pub typed : variant_index m.0.type ≡ which m.1.body

  -- What arrives of it.
  abbrev pub arrived : MessageHeader × Message → MessageHeader × Message
  arrived m =
      let h = one_hop m.0 (length (body_bytes pack m.1.body)) in
      (h, record { body = m.1.body; type = h.type; ttl = h.ttl })

  read-write :
      (m : MessageHeader × Message) (rest : List ℕ)
      → IsSendable m
      → read unpack (write pack m.0 m.1 ++ rest) ≡ some (arrived m, rest)
  unfolding read write read_body
  read-write m rest s =
      let bytes = body_bytes pack m.1.body in
      let whole : length bytes % 2 ^ 32 ≡ length bytes = (let k = s.short in omega arith) in
      let f = s.fits in
      let fits : Fits (record m.0 { size = length bytes }) = record {
        version = f.version;
        type = f.type;
        unused = f.unused;
        ttl = f.ttl;
        source = f.source;
        dest = f.dest;
      } in
      rw
        (
          whole,
          append_assoc (header_bytes (record m.0 { size = length bytes })) bytes rest,
          read_header-header_bytes (record m.0 { size = length bytes }) (bytes ++ rest) fits
              s.short,
          read_bytes-append bytes rest (length bytes) refl,
          s.typed,
          body_of-body_bytes m.1.body s.unpacked,
        )
        refl

  -- If FlatBuffers unpack the bodies that they packed, then messages that are written to a connection one after
  -- another, each with fields and a length that fit the header and with a type that stands for its
  -- body, are read at the other end, whatever follows them: all of them, in order, with the size of
  -- the body in the header and a TTL that is one less, or still 0, in the header and the message.
  pub read_all-write_all :
      (ms : List (MessageHeader × Message)) (rest : List ℕ)
      → All IsSendable ms
      → read_all unpack (length ms) (write_all pack ms ++ rest) ≡ some (map arrived ms, rest)
  unfolding read_all write_all
  read_all-write_all [] rest s = refl
  read_all-write_all (m ∷ ms) rest s =
      rw
        (
          append_assoc (write pack m.0 m.1) (write_all pack ms) rest,
          read-write m (write_all pack ms ++ rest) s.0,
          read_all-write_all ms rest s.1,
        )
        refl
