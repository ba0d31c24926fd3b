-- ===== src/Network/Request.antt =====
-- Outgoing messages (src/veltix/network/request.py, constants.py, flags.py, utils/encoding.py).
-- `zlib.crc32`, `str.encode` and `json.dumps` are parameters, gathered in `Codec`.
use veltix.Exceptions.{
  Exn, no_single_payload, content_not_bytes, content_too_large, overflow_error, struct_error,
}
use veltix.Prelude.{
  ℕ, ◌-◌, ◌^◌, ◌||◌, Option, none, some, List, [], ◌∷◌, ◌++◌, ltb, if◌then◌else◌, length, Result,
  ok, err, ◌>>=◌, eq_nat, eq_string, eq_list,
}
use veltix.Prelude.Bytes.{Bytes, be16, be32}
use veltix.Prelude.Text.{Text}
use veltix.Network.Types.{MessageType}

-- The standard library's encoders and decoders. Decoding raises `none`.
pub record Codec : Type 1 where
  pub Json : Type 0
  pub crc32 : Bytes → ℕ
  pub encode : Text → Result Exn Bytes
  pub decode : Bytes → Option Text
  pub dumps : Json → Result Exn Text
  pub loads : Text → Option Json

-- constants.py: b"VX", and struct.Struct(">2sBHI4s2s")
abbrev pub magic : Bytes
magic = b'V' ∷ b'X' ∷ []

abbrev pub request_id_size : ℕ
request_id_size = 2

abbrev pub header_size : ℕ
header_size = 15

-- flags.py: MessageFlag.NONE
abbrev pub no_flags : ℕ
no_flags = 0

abbrev pub max_content_size : ℕ
max_content_size = 2 ^ 32 - 1

pub record Request : Type 0 where
  pub type : MessageType
  pub content : Bytes
  pub request_id : Option ℕ
  pub flags : ℕ

-- HEADER_STRUCT.pack: `B` and `H` and `I` raise out of range.
unfoldable pub pack_header : ℕ → ℕ → ℕ → Bytes → Bytes → Result Exn Bytes
pack_header flags code size hash request_id =
    if ltb 255 flags || (ltb 65535 code || ltb max_content_size size)
    then err struct_error
    else ok (magic ++ (flags ∷ (be16 code ++ (be32 size ++ (hash ++ request_id)))))

-- self.request_id.to_bytes(2, "big"), or two zero bytes
unfoldable pub request_id_bytes : Option ℕ → Result Exn Bytes
request_id_bytes none = ok (0 ∷ 0 ∷ [])
request_id_bytes (some id) = if ltb 65535 id then err overflow_error else ok (be16 id)

-- Request.respond, with the identifier of the response
unfoldable pub respond : Request → ℕ → Request
respond r id = record r { request_id = some id }

module _ (codec : Codec) where
  open codec use {Json, crc32, encode, dumps}

  -- The argument `content`, of any type; `text`, a str or bytes.
  pub data Payload : Type 0 where
    content_bytes text_bytes : Bytes → Payload
    not_bytes : Payload
    text_str : Text → Payload
    json_value : Json → Payload

  -- encode_utf8 and encode_json of utils/encoding.py, and the check on `content`
  unfoldable pub encoded : Payload → Result Exn Bytes
  encoded (content_bytes b) = ok b
  encoded not_bytes = err content_not_bytes
  encoded (text_str t) = encode t
  encoded (text_bytes b) = ok b
  encoded (json_value j) = do t ← dumps j; encode t

  -- Request.__init__: `given` are the payload arguments that were provided.
  unfoldable pub request : MessageType → List Payload → Option ℕ → Result Exn Request
  request type (p ∷ []) id = do
    content ← encoded p
    ok (record { type = type; content = content; request_id = id; flags = no_flags })
  request type given id = err no_single_payload

  -- Request.compile
  unfoldable pub compile : Request → Result Exn Bytes
  compile r = if ltb max_content_size (length r.content) then err content_too_large else do
    id ← request_id_bytes r.request_id
    header ← pack_header r.flags r.type.code (length r.content) (be32 (crc32 r.content)) id
    ok (header ++ r.content)
