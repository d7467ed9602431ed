-- ===== src/Log/Examples.antt =====
-- A message of src/log.c on a log with its buffer of 4096 bytes and a small serial client.
use libsel4osapi.Prelude.{
  ℕ, zero, suc, ◌≡◌, refl, ap, Bool, none, [], ◌∷◌, inl, length, replicate, arith,
}
use libsel4osapi.Run.{ok}
use libsel4osapi.Pool.View.{Slot}
use libsel4osapi.Buffer.{Bytes}
use libsel4osapi.Serial.{SerialClient, Serial}
use libsel4osapi.Log.{
  Log, taken, given, wrote, level_info, level_warn, buffer_max_size, log_message,
}
use libsel4osapi.Log.Written.{ready, holding, printed_line, log_message-printed}

abbrev client : Slot SerialClient
client = record {
  entry = 10;
  el = 11;
  value = record { id = 1; buf_avail = 1; buf = 0 ∷ 0 ∷ 0 ∷ []; buf_size = 3; server_ep = 7 };
}

abbrev server : Serial
server = record {
  server_ep = 7;
  clients = record { size = 1; free = []; used = []; init_fn = none; compare_fn = none };
  op_size = 0;
  output = [];
}

abbrev no_timeout : Bytes → ℕ
no_timeout buf = 0

abbrev configured : ℕ → Bytes → ℕ
configured dev buf = 0

abbrev log : Log
log = record {
  loglevel = level_info;
  mutex = none;
  console = 1;
  buffer = replicate buffer_max_size 0;
  printed = [];
  serial = server;
  events = [];
}

length-replicate : (n a : ℕ) → length (replicate n a) ≡ n
length-replicate zero a = refl
length-replicate (suc n) a = ap suc (length-replicate n a)

abbrev head : Bool → Bytes
head locked = 72 ∷ []

log_message-printed_example :
    log_message no_timeout configured 11 level_warn head
      (105 ∷ 33 ∷ [])
      (ready no_timeout configured server [] [] client log)
    ≡ ok tt (record (ready no_timeout configured server [] [] client log) {
      buffer =
          holding no_timeout configured server [] [] client log.buffer (72 ∷ []) (105 ∷ 33 ∷ []);
      serial = printed_line no_timeout configured server [] [] client 1 (72 ∷ 105 ∷ 33 ∷ []);
      events = taken ∷ wrote 1 (72 ∷ 105 ∷ 33 ∷ []) ∷ wrote 1 (10 ∷ []) ∷ given ∷ [];
    })
log_message-printed_example =
    log_message-printed no_timeout configured server [] [] client log level_warn head
      (105 ∷ 33 ∷ []) (omega arith) (length-replicate buffer_max_size 0) (omega arith)
      (record {
        elements = record { left = tt; right = (omega arith, refl, tt); apart = tt };
        numbered = (refl, tt);
      })
      (inl refl) (omega arith) (omega arith) (omega arith) (omega arith) (omega arith)
