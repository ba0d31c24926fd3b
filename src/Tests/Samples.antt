-- ===== src/Tests/Samples.antt =====
-- Sample data, and concrete functions for what the program does not implement.
use mathlib.Core.List.{foldl}
use veltix.Exceptions.{Exn, connection_reset}
use veltix.Prelude.{
  ℕ, ◌+◌, ◌≡◌, refl, Bool, not, none, some, List, [], ◌∷◌, arith, nat_eq, if◌then◌else◌, Result, ok,
  err, eq_nat, eq_string, eq_list,
}
use veltix.Prelude.Bytes.{Bytes}
use veltix.Prelude.Text.{Text, codes}
use veltix.Network.Types.{MessageType, Registry, get}
use veltix.Network.Request.{Codec, Request}
use veltix.Network.Sender.{Transport}
use veltix.Network.Wire.{IsSendable}
use veltix.Prelude.Dict.{lookup}
use veltix.Network.MessageBuffer.Framing.{IsDeliverable}

-- The checksum is the sum of the bytes; text is its own encoding, if it is ASCII.
abbrev pub plain_codec : Codec
plain_codec = record {
  Json = Text;
  crc32 = foldl (λ a b. a + b) 0;
  encode = λ t. ok t;
  decode = λ b. some b;
  dumps = λ j. ok j;
  loads = λ t. some t;
}

-- Socket 7 refuses by its answer, socket 9 raises, and the others take the bytes.
abbrev pub answer : ℕ → Result Exn Bool
answer socket = if nat_eq socket 9 then err connection_reset else ok (not (nat_eq socket 7))

abbrev pub loopback : Transport
loopback = record {
  World = List (ℕ × Bytes);
  send_bytes = λ socket b w. (answer socket, (socket, b) ∷ w);
}

abbrev pub chat_type : MessageType
chat_type = record { code = 200; name = codes "chat"; description = none }

abbrev pub file_type : MessageType
file_type = record { code = 300; name = codes "file"; description = none }

abbrev pub registry : Registry
registry = (200, chat_type) ∷ (300, file_type) ∷ []

abbrev pub hello : Request
hello = record { type = chat_type; content = codes "hello"; request_id = some 258; flags = 0 }

abbrev pub note : Request
note = record { type = file_type; content = codes "VX"; request_id = none; flags = 0 }

pub hello-IsSendable : IsSendable hello
hello-IsSendable = omega arith

pub note-IsSendable : IsSendable note
note-IsSendable = omega arith

pub hello-known : get hello.type.code registry ≡ some chat_type
unfolding get lookup
hello-known = refl

pub note-known : get note.type.code registry ≡ some file_type
unfolding get lookup
note-known = refl

pub hello-IsDeliverable : IsDeliverable registry 1024 hello
hello-IsDeliverable = record {
  sendable = hello-IsSendable;
  known = hello-known;
  fits = omega arith;
  fits_parser = omega arith;
}

pub note-IsDeliverable : IsDeliverable registry 1024 note
note-IsDeliverable = record {
  sendable = note-IsSendable;
  known = note-known;
  fits = omega arith;
  fits_parser = omega arith;
}

-- The frames of `hello` and `note`.
abbrev pub hello_bytes : Bytes
hello_bytes = 86 ∷ 88 ∷ 0 ∷ 0 ∷ 200 ∷ 0 ∷ 0 ∷ 0 ∷ 5 ∷ 0 ∷ 0 ∷ 2 ∷ 20 ∷ 1 ∷ 2 ∷ codes "hello"

abbrev pub note_bytes : Bytes
note_bytes = 86 ∷ 88 ∷ 0 ∷ 1 ∷ 44 ∷ 0 ∷ 0 ∷ 0 ∷ 2 ∷ 0 ∷ 0 ∷ 0 ∷ 174 ∷ 0 ∷ 0 ∷ codes "VX"
