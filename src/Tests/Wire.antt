-- ===== src/Tests/Wire.antt =====
-- The wire format at concrete inputs.
use veltix.Prelude.{◌≡◌, refl, arith, ok, eq_nat, eq_string, eq_list}
use veltix.Prelude.Bytes.{Bytes}
use veltix.Network.Request.{pack_header, request_id_bytes, compile}
use veltix.Network.Parser.{parse}
use veltix.Network.Wire.{frame, received, parse-frame, parse-compile, Accepted, parse-Accepted}
use veltix.Tests.Samples.{plain_codec, registry, hello, hello-IsSendable, hello-known, hello_bytes}

compile-hello : compile plain_codec hello ≡ ok hello_bytes
unfolding compile pack_header request_id_bytes
compile-hello = refl

parse-compile_example :
    (b : Bytes) × (compile plain_codec hello ≡ ok b)
    × (parse plain_codec registry b 1024 ≡ ok (received plain_codec hello))
parse-compile_example =
    parse-compile plain_codec registry hello 1024 hello-IsSendable hello-known (omega arith)

hello-frame :
    parse plain_codec registry (frame plain_codec hello) 1024 ≡ ok (received plain_codec hello)
hello-frame = parse-frame plain_codec registry hello 1024 hello-known (omega arith)

parse-Accepted_example :
    Accepted plain_codec registry (frame plain_codec hello) 1024 (received plain_codec hello)
parse-Accepted_example =
    parse-Accepted plain_codec registry (frame plain_codec hello) 1024 (received plain_codec hello)
      hello-frame
