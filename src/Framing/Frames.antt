-- ===== src/Framing/Frames.antt =====
-- Writing and reading frames. A stream is the list of the bytes that arrive before it ends, and the
-- host is little-endian, so that a header is sent as it lies in memory. FlatBuffers are outside: what
-- packs a body, and what verifies and unpacks the bytes of the n-th body type, are parameters.
use synergy_hogsback.Prelude.{
  ◌>>=◌, ℕ, zero, suc, ◌-◌, ◌%◌, ◌^◌, ltb, ◌==◌, if◌then◌else◌, List, [], ◌∷◌, ◌++◌, Option, none,
  some, length, take, drop,
}
use synergy_hogsback.Message.{Body, unknown_message, Message, MessageHeader}
use synergy_hogsback.Codec.Bytes.{to_memory, from_memory}

unfoldable pub header_bytes : MessageHeader → List ℕ
header_bytes h =
    to_memory 1 h.version
    ++ (to_memory 1 h.type
        ++ (to_memory 1 h.unused
            ++ (to_memory 1 h.ttl
                ++ (to_memory 4 h.size ++ (to_memory 4 h.source ++ to_memory 4 h.dest)))))

-- A whole number of bytes from the stream, if they arrive.
unfoldable pub read_bytes : ℕ → List ℕ → Option (List ℕ × List ℕ)
read_bytes n stream = if ltb (length stream) n then none else some (take n stream, drop n stream)

-- One field of a header that was read.
unfoldable pub field : ℕ → List ℕ → Option (ℕ × List ℕ)
field n stream = read_bytes n stream >>= λ out. some (from_memory out.0, out.1)

-- `read_header`: the TTL that arrives goes down by one.
unfoldable pub read_header : List ℕ → Option (MessageHeader × List ℕ)
read_header stream = do
  v ← field 1 stream
  t ← field 1 v.1
  u ← field 1 t.1
  l ← field 1 u.1
  n ← field 4 l.1
  s ← field 4 n.1
  d ← field 4 s.1
  some (
    record {
      version = v.0;
      type = t.0;
      unused = u.0;
      ttl = (if l.0 == 0 then 0 else l.0 - 1);
      size = n.0;
      source = s.0;
      dest = d.0;
    },
    d.1,
  )

-- `make_variant_of_nth`: an index that no alternative has means the first one.
unfoldable pub variant_index : ℕ → ℕ
variant_index n = if ltb 6 n then 0 else n

module _ (pack : Body → List ℕ) where
  unfoldable pub body_bytes : Body → List ℕ
  body_bytes (unknown_message bytes) = bytes
  body_bytes b = pack b

  -- `MessageWriter::write`
  unfoldable pub write : MessageHeader → Message → List ℕ
  write h m =
      header_bytes (record h { size = length (body_bytes m.body) % 2 ^ 32 }) ++ body_bytes m.body

  -- The loop of `Connection::send` over the queue.
  unfoldable pub write_all : List (MessageHeader × Message) → List ℕ
  write_all [] = []
  write_all (m ∷ queue) = write m.0 m.1 ++ write_all queue

module _ (unpack : ℕ → List ℕ → Option Body) where
  unfoldable pub body_of : ℕ → List ℕ → Option Body
  body_of zero bytes = some (unknown_message bytes)
  body_of (suc n) bytes = unpack (suc n) bytes

  -- `read_body`; `none` where it fails.
  unfoldable pub read_body : MessageHeader → List ℕ → Option (Message × List ℕ)
  read_body h stream = do
    bytes ← read_bytes h.size stream
    body ← body_of (variant_index h.type) bytes.0
    some (record { body = body; type = h.type; ttl = h.ttl }, bytes.1)

  -- One turn of the loop of `Connection::start`.
  unfoldable pub read : List ℕ → Option ((MessageHeader × Message) × List ℕ)
  read stream = do h ← read_header stream; m ← read_body h.0 h.1; some ((h.0, m.0), m.1)

  -- So many turns, all of them with a message.
  unfoldable pub read_all : ℕ → List ℕ → Option (List (MessageHeader × Message) × List ℕ)
  read_all zero stream = some ([], stream)
  read_all (suc n) stream = do
    first ← read stream
    later ← read_all n first.1
    some (first.0 ∷ later.0, later.1)
