-- ===== src/Internal/Recv.antt =====
-- Receiving with an explicit status (src/veltix/internal/network.py).
use veltix.Exceptions.{Exn, blocking_io, timed_out}
use veltix.Prelude.{
  Bool, true, false, Option, none, some, [], ◌∷◌, Result, eq_nat, eq_string, eq_list,
}
use veltix.Prelude.Bytes.{Bytes}

pub data RecvStatus : Type 0 where
  ok timeout closed error : RecvStatus

-- `payload` is the field `data`.
pub record RecvResult : Type 0 where
  pub status : RecvStatus
  pub payload : Option Bytes

-- RecvResult.timed_out
unfoldable pub timed_out_status : RecvStatus → Bool
timed_out_status timeout = true
timed_out_status _ = false

-- RecvResult.disconnected
unfoldable pub disconnected : RecvStatus → Bool
disconnected closed = true
disconnected error = true
disconnected _ = false

-- The handlers of `recv`: socket.timeout and BlockingIOError, and every other exception
unfoldable pub recv_failed : Exn → RecvResult
recv_failed timed_out = record { status = timeout; payload = none }
recv_failed blocking_io = record { status = timeout; payload = none }
recv_failed _ = record { status = error; payload = none }

-- recv, from what `conn.recv` comes to
unfoldable pub recv : Result Exn Bytes → RecvResult
recv (Result.ok []) = record { status = closed; payload = none }
recv (Result.ok (b ∷ bs)) = record { status = ok; payload = some (b ∷ bs) }
recv (Result.err e) = recv_failed e
