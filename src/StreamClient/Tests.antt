-- ===== src/StreamClient/Tests.antt =====
-- A client that connects, disconnects and connects again.
use toy_basket.Prelude.{◌≡◌, refl, [], ◌∷◌, true, false, none}
use toy_basket.Connector.{k_connected, new_connector, einprogress}
use toy_basket.StreamClient.{StreamClient, connect, disconnect, disconnects, react_all, react}
use toy_basket.StreamClient.Again.{connect_again_fails}

abbrev done : StreamClient
done = record {
  connector = record new_connector { connects = true; state = k_connected; opened = 3 ∷ [] };
  retry = false;
  connects = true;
  next_conn_id = 2;
  connection = none;
  pending = [];
}

connect_again_fails_example : connect (record done { connects = false }) 4 einprogress ≡ none
unfolding react_all react disconnect
connect_again_fails_example =
    connect_again_fails done (record done { connects = false }) (disconnects ∷ []) 4 einprogress
      refl refl refl
