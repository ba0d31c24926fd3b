-- ===== src/Client/Reconnect/Reset.antt =====
-- What ReconnectHandler.reset keeps (src/veltix/client/reconnect_handler.py).
use veltix.Prelude.{eq_nat, eq_string, eq_list}
use veltix.Client.State.{Client}
