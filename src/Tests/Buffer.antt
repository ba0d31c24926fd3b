-- ===== src/Tests/Buffer.antt =====
-- The message buffer at concrete inputs.
use veltix.Prelude.{◌≡◌, refl, List, [], ◌∷◌, ◌++◌, arith, take, drop, eq_nat, eq_string, eq_list}
use veltix.Prelude.Bytes.{Bytes}
use veltix.Prelude.Text.{codes}
use veltix.Prelude.Dict.{lookup}
use veltix.Network.Types.{get}
use veltix.Network.Parser.{check_fields, parse}
use veltix.Network.Wire.{frame, received}
use veltix.Network.MessageBuffer.{
  MessageBuffer, message_buffer, find_magic, resync, parse_head, extract_step, continue,
  extract_loop, extract_messages,
}
use veltix.Network.MessageBuffer.Resync.{Resynced, resync-Resynced}
use veltix.Network.MessageBuffer.Loop.{IsDrained, extract_messages-IsDrained}
use veltix.Network.MessageBuffer.Soundness.{Carved, extract_messages-Carved}
use veltix.Network.MessageBuffer.Chunks.{IsBounded, feed, feed_all, feed-IsBounded, feed_all-stream}
use veltix.Tests.Samples.{
  plain_codec, registry, hello, note, hello-IsDeliverable, note-IsDeliverable, hello_bytes,
  note_bytes,
}

-- Two frames in three chunks: the content of the second holds the magic bytes.
abbrev pub two_frames : Bytes
two_frames = hello_bytes ++ note_bytes

abbrev chunks : List Bytes
chunks = take 3 two_frames ∷ take 25 (drop 3 two_frames) ∷ drop 28 two_frames ∷ []

feed_all-stream_example :
    feed_all plain_codec registry (message_buffer 1024 2048) chunks
    ≡ (received plain_codec hello ∷ received plain_codec note ∷ [], message_buffer 1024 2048)
unfolding frame
feed_all-stream_example =
    feed_all-stream plain_codec registry 1024 2048 (hello ∷ note ∷ []) chunks 1024
      (hello-IsDeliverable, (note-IsDeliverable, tt)) refl (omega arith) (omega arith)

-- Junk, a message, and the beginning of another.
abbrev dirty : MessageBuffer
dirty = record {
  buffer = codes "junk" ++ (hello_bytes ++ codes "VX");
  max_message_size = 1024;
  max_buffer_size = 2048;
}

extract_messages-Carved_example :
    let (rs, m') = extract_messages plain_codec registry dirty in
    Carved plain_codec registry rs dirty.buffer m'.buffer
extract_messages-Carved_example = extract_messages-Carved plain_codec registry dirty

extract_messages-IsDrained_example :
    IsDrained plain_codec registry 1024 (extract_messages plain_codec registry dirty).1.buffer
extract_messages-IsDrained_example = extract_messages-IsDrained plain_codec registry dirty

extract-dirty :
    extract_messages plain_codec registry dirty
    ≡ (received plain_codec hello ∷ [], record dirty { buffer = codes "VX" })
unfolding extract_messages extract_loop continue extract_step parse_head parse check_fields get
    lookup resync find_magic
extract-dirty = refl

resync-Resynced_example : Resynced dirty.buffer (resync dirty.buffer)
resync-Resynced_example = resync-Resynced dirty.buffer

feed-IsBounded_example : IsBounded (feed plain_codec registry dirty (codes "more")).1
feed-IsBounded_example = feed-IsBounded plain_codec registry dirty (codes "more")
