-- ===== src/Network/Parser.antt =====
-- Decoding of one framed message (src/veltix/network/parser.py).
use veltix.Exceptions.{
  Exn, too_short, too_large, invalid_magic, size_mismatch, unknown_type_code, hash_mismatch,
}
use veltix.Prelude.{
  ℕ, ◌*◌, not, none, some, ltb, if◌then◌else◌, ◌==◌, length, take, drop, Result, ok, err, eq_nat,
  eq_string, eq_list,
}
use veltix.Prelude.Bytes.{Bytes, be32, from_be, slice}
use veltix.Network.Types.{Registry, get}
use veltix.Network.Request.{Codec, magic, header_size}
use veltix.Network.Response.{Response, response}

abbrev pub default_max_message_size : ℕ
default_max_message_size = 10 * 1024 * 1024

module _ (codec : Codec) where
  open codec use {crc32}

  -- The checks on the unpacked header fields, in order.
  unfoldable pub check_fields :
      Registry → Bytes → ℕ → ℕ → Bytes → ℕ → Bytes → Result Exn (Response codec)
  check_fields reg magic_read code size hash_received id content =
      if not (magic_read == magic)
      then err invalid_magic
      else if not (length content == size)
      then err size_mismatch
      else elim (get code reg) [
        | none ↦ err unknown_type_code
        | some type ↦
            if not (hash_received == be32 (crc32 content))
            then err hash_mismatch
            else ok (response codec type content hash_received id none)
      ]

  -- MessageParser.parse: HEADER_STRUCT.unpack reads the fields at 0, 2, 3, 5, 9 and 13.
  unfoldable pub parse : Registry → Bytes → ℕ → Result Exn (Response codec)
  parse reg msg max_message_size =
      if ltb (length msg) header_size
      then err too_short
      else if ltb max_message_size (length msg)
      then err too_large
      else let header = take header_size msg in
        check_fields reg (slice 0 2 header) (from_be (slice 3 2 header))
          (from_be (slice 5 4 header)) (slice 9 4 header) (from_be (slice 13 2 header))
          (drop header_size msg)
