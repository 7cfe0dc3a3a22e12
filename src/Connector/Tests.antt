-- ===== src/Connector/Tests.antt =====
-- The connector's theorems at concrete runs.
use toy_basket.Prelude.{List, [], ◌∷◌, true, false, some, none, refl, arith}
use toy_basket.Channel.{is_idle}
use toy_basket.Connector.{
  Connector, k_connected, Action, starts, runs_start, resets, writable, econnrefused, einprogress,
  new_connector, act_all, act, start, start_in_loop, connect, connecting, connecting_channel, retry,
  handle_write, remove_and_reset_channel, reset_channel, add_timer, close_fd, queue_reset,
  new_connection_callback, k_connecting,
}
use toy_basket.Connector.Sockets.{IsValid, act_all-IsValid}

-- Refused once, then connected.
abbrev calls : List Action
calls = starts true 3 econnrefused ∷ runs_start 4 einprogress ∷ writable false false ∷ resets ∷ []

abbrev connected : Connector
connected = record {
  connects = true;
  state = k_connected;
  channel = none;
  retry_delay_ms = 1000;
  opened = 3 ∷ 4 ∷ [];
  effects = close_fd 3 ∷ add_timer 500 ∷ queue_reset ∷ new_connection_callback 4 ∷ [];
}

act_all-IsValid_example : IsValid connected
unfolding act_all act start start_in_loop connect connecting retry handle_write
    remove_and_reset_channel reset_channel is_idle
act_all-IsValid_example = act_all-IsValid calls connected refl

abbrev waiting : Connector
waiting = record new_connector {
  connects = true;
  state = k_connecting;
  channel = some (connecting_channel 4);
  opened = 4 ∷ [];
}

waiting-IsValid : IsValid waiting
waiting-IsValid = record { balance = refl; active = λ h. refl; delay = omega arith }

abbrev willing : Connector
willing = record new_connector { connects = true }
