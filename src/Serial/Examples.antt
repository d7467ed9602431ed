-- ===== src/Serial/Examples.antt =====
-- Runs of the serial devices of src/io.c with one client.
use libsel4osapi.Prelude.{ℕ, ◌≡◌, refl, none, some, List, [], ◌∷◌, arith}
use libsel4osapi.Run.{ok}
use libsel4osapi.Pool.View.{Slot}
use libsel4osapi.Buffer.{Bytes}
use libsel4osapi.Serial.{SerialClient, Serial, Poll, wait_char, read_loop}
use libsel4osapi.Serial.Read.{read_loop-replicate}

abbrev client : Slot SerialClient
client = record {
  entry = 10;
  el = 11;
  value = record { id = 1; buf_avail = 1; buf = 0 ∷ 0 ∷ 0 ∷ []; buf_size = 3; server_ep = 7 };
}

abbrev server : List (Slot SerialClient) → Serial
server used = record {
  server_ep = 7;
  clients = record { size = 2; free = []; used = used; init_fn = none; compare_fn = none };
  op_size = 0;
  output = [];
}

abbrev no_timeout : Bytes → ℕ
no_timeout buf = 0

abbrev configured : ℕ → Bytes → ℕ
configured dev buf = 0

abbrev polls : List Poll
polls = record { now = 5; char = none } ∷ record { now = 6; char = some 65 } ∷ []

first_char : wait_char 0 5 none polls ≡ some (some 65, [])
unfolding wait_char
first_char = refl

read_loop-replicate_example :
    read_loop 2 0 0 5 none polls (0 ∷ 0 ∷ 9 ∷ []) (server []) ≡ ok (2, 65 ∷ 65 ∷ 9 ∷ []) (server [])
read_loop-replicate_example =
    read_loop-replicate 2 65 0 5 polls [] (0 ∷ 0 ∷ 9 ∷ []) (server []) (omega arith) (omega arith)
      first_char
