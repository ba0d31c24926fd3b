-- ===== src/Network/Wire.antt =====
-- Request.compile (request.py) against MessageParser.parse (parser.py).
use veltix.Prelude.{
  ℕ, ◌+◌, ◌≤◌, ◌≡◌, refl, sym, ◌∙◌, Option, none, some, ◌∷◌, ◌++◌, arith, le→ltb_false, nat_eq_refl,
  list_eq→eq, list_eq_refl, length, take, drop, ok, eq_nat, eq_string, eq_list,
}
use veltix.Prelude.Bytes.{Bytes, be16, be32, from_be, slice, from_be-be16, from_be-be32}
use veltix.Network.Types.{MessageType, Registry, get}
use veltix.Network.Request.{
  Codec, magic, header_size, max_content_size, Request, pack_header, request_id_bytes, compile,
}
use veltix.Network.Response.{Response, response}
use veltix.Network.Parser.{check_fields, parse}

-- The identifier on the wire: a request without one is sent with 0.
abbrev pub wire_id : Request → ℕ
wire_id r = elim r.request_id [ some id ↦ id | none ↦ 0 ]

-- The fields fit the header.
pub record IsSendable (r : Request) : Type 0 where
  pub content_fits : length r.content ≤ max_content_size
  pub code_fits : r.type.code ≤ 65535
  pub flags_fit : r.flags ≤ 255
  pub id_fits : wire_id r ≤ 65535

module _ (codec : Codec) where
  -- The frame on the wire.
  unfoldable pub frame : Request → Bytes
  frame r =
      (magic
        ++ (r.flags
            ∷ (be16 r.type.code
                ++ (be32 (length r.content)
                    ++ (be32 (codec.crc32 r.content) ++ be16 (wire_id r))))))
      ++ r.content

  -- What the peer receives.
  abbrev pub received : Request → Response codec
  received r = response codec r.type r.content (be32 (codec.crc32 r.content)) (wire_id r) none

  pub request_id_bytes-eq :
      (o : Option ℕ) (id : ℕ)
      → id ≡ (elim o [ some i ↦ i | none ↦ 0 ])
      → id ≤ 65535
      → request_id_bytes o ≡ ok (be16 id)
  unfolding request_id_bytes
  request_id_bytes-eq none id e h = rw e refl
  request_id_bytes-eq (some i) id e h = rw e (rw (le→ltb_false 65535 i (omega arith)))

  pub compile-eq-frame : (r : Request) → IsSendable r → compile codec r ≡ ok (frame r)
  unfolding compile pack_header frame
  compile-eq-frame r v = rw (le→ltb_false max_content_size (length r.content) v.content_fits) (
      rw (request_id_bytes-eq r.request_id (wire_id r) refl v.id_fits) (
        rw (le→ltb_false 255 r.flags v.flags_fit)
          (rw (le→ltb_false 65535 r.type.code v.code_fits))))

  pub length-frame : (r : Request) → length (frame r) ≡ 15 + length r.content
  unfolding frame
  length-frame r = omega arith

  -- Past the length checks, the parser unpacks the header.
  pub parse-unpacks :
      (reg : Registry) (msg : Bytes) (max : ℕ)
      → header_size ≤ length msg
      → length msg ≤ max
      → parse codec reg msg max
        ≡ check_fields codec reg
            (slice 0 2 (take header_size msg))
            (from_be (slice 3 2 (take header_size msg)))
            (from_be (slice 5 4 (take header_size msg)))
            (slice 9 4 (take header_size msg))
            (from_be (slice 13 2 (take header_size msg)))
            (drop header_size msg)
  unfolding parse
  parse-unpacks reg msg max low high =
      rw (le→ltb_false (length msg) header_size low) (rw (le→ltb_false max (length msg) high))

  check_fields-eq :
      (reg : Registry) (type : MessageType) (code size id id' : ℕ) (content : Bytes)
      → get code reg ≡ some type
      → size ≡ length content
      → id' ≡ id
      → check_fields codec reg magic code size (be32 (codec.crc32 content)) id' content
        ≡ ok (response codec type content (be32 (codec.crc32 content)) id none)
  unfolding check_fields
  check_fields-eq reg type code size id id' content known same same_id = rw same (
      rw (nat_eq_refl (length content))
        (rw known (rw (list_eq_refl (be32 (codec.crc32 content))) (rw same_id))))

  -- The parser reads back the type, the content and the identifier of a frame.
  pub parse-frame :
      (reg : Registry) (r : Request) (max : ℕ)
      → get r.type.code reg ≡ some r.type
      → 15 + length r.content ≤ max
      → parse codec reg (frame r) max ≡ ok (received r)
  unfolding frame
  parse-frame reg r max known h =
      parse-unpacks reg (frame r) max (omega arith) (omega arith)
      ∙ check_fields-eq reg r.type (from_be (be16 r.type.code)) (from_be (be32 (length r.content)))
          (wire_id r) (from_be (be16 (wire_id r))) r.content (rw (from_be-be16 r.type.code) known)
          (from_be-be32 (length r.content)) (from_be-be16 (wire_id r))

  -- A request that fits the header compiles, and the parser gives it back from the bytes: type,
  -- content and identifier (0 where the request has none).
  pub parse-compile :
      (reg : Registry) (r : Request) (max : ℕ)
      → IsSendable r
      → get r.type.code reg ≡ some r.type
      → header_size + length r.content ≤ max
      → (b : Bytes) × (compile codec r ≡ ok b) × (parse codec reg b max ≡ ok (received r))
  parse-compile reg r max v known h = (frame r, compile-eq-frame r v, parse-frame reg r max known h)

  -- What an accepted message is: its header names the magic bytes, a registered type, the length of
  -- the content and its checksum, and the response carries what the header and the content say.
  pub record Accepted (reg : Registry) (msg : Bytes) (max : ℕ) (x : Response codec) : Type 0 where
    pub long_enough : header_size ≤ length msg
    pub not_too_long : length msg ≤ max
    pub has_magic : slice 0 2 (take header_size msg) ≡ magic
    pub size_matches : length (drop header_size msg) ≡ from_be (slice 5 4 (take header_size msg))
    pub type_known : get (from_be (slice 3 2 (take header_size msg))) reg ≡ some x.type
    pub hash_matches : slice 9 4 (take header_size msg) ≡ be32 (codec.crc32 (drop header_size msg))
    pub content_is_rest : x.content ≡ drop header_size msg
    pub id_is_read : x.request_id ≡ from_be (slice 13 2 (take header_size msg))

  check_fields-inv :
      (reg : Registry) (m : Bytes) (code size : ℕ) (h : Bytes) (id : ℕ) (content : Bytes)
      (x : Response codec)
      → check_fields codec reg m code size h id content ≡ ok x
      → (m ≡ magic)
        × (length content ≡ size)
        × (get code reg ≡ some x.type)
        × (h ≡ be32 (codec.crc32 content))
        × (x.content ≡ content)
        × (x.request_id ≡ id)
  unfolding check_fields response
  check_fields-inv reg m code size h id content x e =
      ground (arith, list_eq→eq m magic, list_eq→eq h (be32 (codec.crc32 content)))

  long :
      (reg : Registry) (msg : Bytes) (max : ℕ) (x : Response codec)
      → parse codec reg msg max ≡ ok x
      → header_size ≤ length msg
  unfolding parse
  long reg msg max x e = ground arith

  short :
      (reg : Registry) (msg : Bytes) (max : ℕ) (x : Response codec)
      → parse codec reg msg max ≡ ok x
      → length msg ≤ max
  unfolding parse
  short reg msg max x e = ground arith

  -- A message that the parser accepts is well formed, and the response says what it holds.
  pub parse-Accepted :
      (reg : Registry) (msg : Bytes) (max : ℕ) (x : Response codec)
      → parse codec reg msg max ≡ ok x
      → Accepted reg msg max x
  parse-Accepted reg msg max x e =
      let low : header_size ≤ length msg = long reg msg max x e in
      let high : length msg ≤ max = short reg msg max x e in
      let f = sym (parse-unpacks reg msg max low high) ∙ e in
      let (m, s, t, h, c, i) =
        check_fields-inv reg (slice 0 2 (take header_size msg))
          (from_be (slice 3 2 (take header_size msg))) (from_be (slice 5 4 (take header_size msg)))
          (slice 9 4 (take header_size msg)) (from_be (slice 13 2 (take header_size msg)))
          (drop header_size msg) x f in
      record {
        long_enough = low;
        not_too_long = high;
        has_magic = m;
        size_matches = s;
        type_known = t;
        hash_matches = h;
        content_is_rest = c;
        id_is_read = i;
      }
