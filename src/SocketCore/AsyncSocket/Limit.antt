-- ===== src/SocketCore/AsyncSocket/Limit.antt =====
-- The limit of clients in the two socket cores (src/veltix/socket_core/threading_socket.py,
-- src/veltix/socket_core/async_socket.py).
use veltix.Prelude.{ℕ, zero, suc, ◌<◌, ◌≡◌, refl, ◌↔◌, arith, eq_nat, eq_string, eq_list}
use veltix.SocketCore.ThreadingSocket.{MaxClient, at_most, negative, limit_reached}
use veltix.SocketCore.AsyncSocket.{refuses_more}

-- A positive max_client, or -1
abbrev pub IsUsual : MaxClient → Type 0
IsUsual (at_most m) = 0 < m
IsUsual (negative n) = n ≡ 0

usual-agree :
    (max_client : MaxClient) (count : ℕ)
    → IsUsual max_client
    → limit_reached max_client count ≡ refuses_more max_client count
unfolding limit_reached refuses_more
usual-agree (at_most m) count pos = ground arith
usual-agree (negative zero) count minus_one = refl
usual-agree (negative (suc n)) count minus_one = absurd (omega arith)

unusual-differ :
    (max_client : MaxClient)
    → ((count : ℕ) → limit_reached max_client count ≡ refuses_more max_client count)
    → IsUsual max_client
unfolding limit_reached refuses_more
unusual-differ (at_most zero) same = absurd (ground (arith, same 0))
unusual-differ (at_most (suc m)) same = omega arith
unusual-differ (negative zero) same = refl
unusual-differ (negative (suc n)) same = absurd (ground (arith, same 0))

-- The two cores refuse a client at the same numbers of clients if and only if max_client is
-- positive or -1. (At 0, and below -1, the threading core has no limit and the other core refuses
-- every client.)
pub limit_reached-refuses_more_iff :
    (max_client : MaxClient)
    → ((count : ℕ) → limit_reached max_client count ≡ refuses_more max_client count)
      ↔ IsUsual max_client
limit_reached-refuses_more_iff max_client =
    (unusual-differ max_client, λ usual count. usual-agree max_client count usual)
