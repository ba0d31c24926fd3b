-- ===== src/Network/MessageBuffer.antt =====
-- Framing of the TCP stream (src/veltix/network/message_buffer.py). The bus only logs there and
-- is left out.
pub mod Resync
pub mod Loop
pub mod Soundness
pub mod Framing
pub mod Chunks
use veltix.Prelude.{
  ℕ, zero, suc, ◌+◌, ◌*◌, not, Option, none, some, List, [], ◌∷◌, ◌++◌, ltb, if◌then◌else◌, ◌==◌,
  length, take, drop, ok, err, eq_nat, eq_string, eq_list,
}
use veltix.Prelude.Bytes.{Bytes, from_be, slice}
use veltix.Network.Types.{Registry}
use veltix.Network.Request.{Codec, magic, header_size}
use veltix.Network.Response.{Response}
use veltix.Network.Parser.{default_max_message_size, parse}

abbrev pub default_max_buffer_size : ℕ
default_max_buffer_size = 20 * 1024 * 1024

pub record MessageBuffer : Type 0 where
  pub buffer : Bytes
  pub max_message_size : ℕ
  pub max_buffer_size : ℕ

-- MessageBuffer.__init__
unfoldable pub message_buffer : ℕ → ℕ → MessageBuffer
message_buffer max_message_size max_buffer_size = record {
  buffer = [];
  max_message_size = max_message_size;
  max_buffer_size = max_buffer_size;
}

-- MessageBuffer.clear
unfoldable pub clear : MessageBuffer → MessageBuffer
clear m = record m { buffer = [] }

-- MessageBuffer.add_data
unfoldable pub add_data : MessageBuffer → Bytes → MessageBuffer
add_data m new =
    if ltb m.max_buffer_size (length m.buffer + length new)
    then clear m
    else record m { buffer = m.buffer ++ new }

-- b.find(MAGIC): the first position at which MAGIC stands
unfoldable pub find_magic : Bytes → Option ℕ
find_magic [] = none
find_magic (x ∷ xs) =
    if take 2 (x ∷ xs) == magic
    then some 0
    else elim (find_magic xs) [ some i ↦ some (suc i) | none ↦ none ]

-- MessageBuffer._resync: `find(MAGIC, 1)` starts behind the first byte.
unfoldable pub resync : Bytes → Bytes
resync b = elim (find_magic (drop 1 b)) [ none ↦ [] | some i ↦ drop (suc i) b ]

module _ (codec : Codec) where
  -- One round of the loop in `extract_messages`: it breaks, it goes on with a resynchronised
  -- buffer, or it appends a response and drops the bytes of its message.
  pub data Outcome : Type 0 where
    need_more : Outcome
    resynced : Bytes → Outcome
    delivered : Response codec → Bytes → Outcome

  -- The call of the parser: its size limit is the parser's default.
  unfoldable pub parse_head : Registry → Bytes → ℕ → Outcome
  parse_head reg b total_size =
      elim (parse codec reg (take total_size b) default_max_message_size) [
        | ok r ↦ delivered r (drop total_size b)
        | err e ↦ resynced (resync b)
      ]

  unfoldable pub extract_step : Registry → ℕ → Bytes → Outcome
  extract_step reg max_message_size b =
      if ltb (length b) header_size
      then need_more
      else if not (slice 0 2 b == magic)
      then resynced (resync b)
      else let total_size = header_size + from_be (slice 5 4 b) in
        if ltb max_message_size total_size
        then resynced (resync b)
        else if ltb (length b) total_size
        then need_more
        else parse_head reg b total_size

  unfoldable pub continue :
      Outcome → Bytes → (Bytes → List (Response codec) × Bytes) → List (Response codec) × Bytes
  continue need_more b k = ([], b)
  continue (resynced b') b k = k b'
  continue (delivered r b') b k = let (rs, rest) = k b' in (r ∷ rs, rest)

  -- `while True`, with fuel
  unfoldable pub extract_loop : ℕ → Registry → ℕ → Bytes → List (Response codec) × Bytes
  extract_loop zero reg max b = ([], b)
  extract_loop (suc f) reg max b = continue (extract_step reg max b) b (extract_loop f reg max)

  -- MessageBuffer.extract_messages: each round that goes on shortens the buffer.
  unfoldable pub extract_messages : Registry → MessageBuffer → List (Response codec) × MessageBuffer
  extract_messages reg m =
      let (rs, rest) = extract_loop (suc (length m.buffer)) reg m.max_message_size m.buffer in
      (rs, record m { buffer = rest })
