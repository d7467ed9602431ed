-- ===== src/Log.antt =====
-- src/log.c: the messages of the system log, which go to the standard output or, through the serial
-- client at `client` of the process, to a serial device. What the C library formats is a parameter: `pre`
-- is the text of a message's head, with the name of the thread where the mutex exists and without it
-- elsewhere, and `text` that of the message.
pub mod Written
pub mod Examples
use libsel4osapi.Prelude.{
  ℕ, zero, suc, ◌+◌, ◌-◌, ◌%◌, ◌^◌, Bool, true, false, not, Option, none, some, List, [], ◌∷◌, ◌++◌,
  length, take, leb, ◌==◌, if◌then◌else◌,
}
use libsel4osapi.Run.{
  Run, ok, fail, assert_failed, bad_pointer, blocked, Cmd, pure, stop, ◌>>=◌, ◌>>◌, check, when,
  need,
}
use libsel4osapi.LinkedList.{Ptr}
use libsel4osapi.Buffer.{Bytes, write_at}
use libsel4osapi.Serial.{Serial, io_serial_write}

-- The taking and the release of the mutex, and the bytes put on a serial device.
pub data LogEvent : Type 0 where
  taken given : LogEvent
  wrote : ℕ → Bytes → LogEvent

-- The variables of the file. `events` is what has been done in order. `mutex` says whether the mutex is held, where it exists; `printed` is what
-- puts has been given.
pub record Log : Type 0 where
  pub loglevel : ℕ
  pub mutex : Option Bool
  pub console : ℕ
  pub buffer : Bytes
  pub printed : List Bytes
  pub serial : Serial
  pub events : List LogEvent

pub note : LogEvent → Cmd Log (Unit {0})
note e s = ok tt (record s { events = s.events ++ e ∷ [] })

abbrev pub level_warn : ℕ
level_warn = 1

abbrev pub level_info : ℕ
level_info = 2

abbrev pub level_trace : ℕ
level_trace = 3

abbrev pub buffer_max_size : ℕ
buffer_max_size = 4096

abbrev pub exists : Option Bool → Bool
exists none = false
exists (some held) = true

-- sel4osapi_log_set_level
pub set_level : ℕ → Cmd Log (Unit {0})
set_level level = do check (leb level level_trace); λ s. ok tt (record s { loglevel = level })

abbrev locked : Option Bool → Cmd Log (Unit {0})
locked none = pure tt
locked (some true) = stop blocked
locked (some false) = do λ s. ok tt (record s { mutex = some true }); note taken

-- sel4osapi_log_lock, which waits for good where nobody gives the mutex back.
pub log_lock : Cmd Log (Unit {0})
unfolding note
log_lock s = locked s.mutex s

abbrev unlocked : Option Bool → Cmd Log (Unit {0})
unlocked none = pure tt
unlocked (some held) = do λ s. ok tt (record s { mutex = some false }); note given

-- sel4osapi_log_unlock
pub log_unlock : Cmd Log (Unit {0})
unfolding note
log_unlock s = unlocked s.mutex s

-- snprintf of a formatted text to `n` bytes from the offset `off` of the buffer on: it keeps a byte for
-- the end of the string, and returns the length that the text would have.
pub snprintf : (off n : ℕ) → Bytes → Cmd Log ℕ
snprintf off n text = do
  when (not (n == 0)) (do
    buf ← λ s. need (write_at s.buffer off (take (n - 1) text ++ 0 ∷ [])) s
    λ s. ok tt (record s { buffer = buf }))
  pure (length text)

-- The string that a buffer holds.
abbrev pub c_string : Bytes → Bytes
c_string [] = []
c_string (b ∷ bs) = if b == 0 then [] else b ∷ c_string bs

abbrev in_serial : {A : Type 0} → Log → Run Serial A → Run Log A
in_serial s (ok a t) = ok a (record s { serial = t })
in_serial s (fail f) = fail f

abbrev pub newline : ℕ
newline = 10

module _ (timeout_of : Bytes → ℕ) (serial_configure : ℕ → Bytes → ℕ) (client : Ptr) where
  pub write_serial : Bytes → (size : ℕ) → Cmd Log (Unit {0})
  unfolding note
  write_serial text size = do
    r ← λ s.
        in_serial s
          (io_serial_write timeout_of serial_configure client s.console text size s.serial)
    λ s. note (wrote s.console (take size text)) s

  -- __syslog_outMessage
  pub out_message : (len : ℕ) → Cmd Log (Unit {0})
  unfolding write_serial
  out_message len s =
      if s.console == 0
      then ok tt (record s { printed = s.printed ++ c_string s.buffer ∷ [] })
      else (do write_serial s.buffer len; write_serial (newline ∷ []) 1) s

  -- __syslog_logMessage; the lengths are of type size_t.
  pub log_message : (level : ℕ) → (pre : Bool → Bytes) → (text : Bytes) → Cmd Log (Unit {0})
  unfolding log_lock log_unlock snprintf out_message
  log_message level pre text s =
      if leb level s.loglevel
      then (do
        when (exists s.mutex) log_lock
        len ← snprintf 0 buffer_max_size (pre (exists s.mutex))
        more ← snprintf len ((buffer_max_size + 2 ^ 32 - len) % 2 ^ 32) text
        out_message ((len + more) % 2 ^ 32)
        when (exists s.mutex) log_unlock)
          s
      else ok tt s

  -- sel4osapi_log_initialize, with the warning that it gives the second time.
  pub log_initialize : (pre : Bool → Bytes) → (warning : Bytes) → Cmd Log ℕ
  unfolding log_message
  log_initialize pre warning s =
      if exists s.mutex
      then (do log_message level_warn pre warning; pure 0) s
      else ok 0 (record s { mutex = some false })

  -- sel4osapi_log_set_console, with its messages.
  pub set_console :
      (console : ℕ)
      → (pre : Bool → Bytes) → (ruler switching continued : Bytes) → Cmd Log (Unit {0})
  unfolding log_message
  set_console console pre ruler switching continued = do
    log_message level_info pre ruler
    log_message level_info pre switching
    log_message level_info pre ruler
    λ s. ok tt (record s { console = console })
    log_message level_info pre continued
