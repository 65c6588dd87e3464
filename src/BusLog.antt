-- ===== src/BusLog.antt =====
-- src/duino_bus/BusLog.h and src/BusLog.cpp: a log message as a LOG packet on the bus.
pub mod Chars
pub mod Message
mod Tests
use mathlib.Core.Option.{Option, none, some}
use duino_bus.Base.{ℕ, ◌+◌, ◌%◌, List, [], ◌∷◌, if◌then◌else◌, ltb, set, Run, done, ◌>>=◌}
use duino_bus.Crc8.{Crc8}
use duino_bus.Packet.{
  Packet, LogEvent, add_size, set_command, set_data, append_byte, get_write_data,
  get_space_remaining,
}
use duino_bus.CorePacketHandler
use duino_bus.Bus.{Bus, Transport, write_packet}

-- `LogParam`
pub record LogParam : Type 0 where
  pub pkt : Packet
  pub bytes_written : ℕ

-- `log_char_to_packet`. Its answer, 1 or 0, goes to the formatter.
unfoldable pub log_char_to_packet : LogParam → ℕ → Run (ℕ × LogParam)
log_char_to_packet param ch =
    if ltb 1 (get_space_remaining param.pkt)
    then (do
      p ← append_byte param.pkt ch
      done (1, record { pkt = p; bytes_written = add_size param.bytes_written 1 }))
    else done (0, param)

-- `vStrXPrintf` of duino_log, as far as the packet sees it: it hands the characters `chars` of the
-- formatted message to the function, in order.
unfoldable pub put_chars : LogParam → List ℕ → Run LogParam
put_chars param [] = done param
put_chars param (c ∷ cs) = do (taken, param') ← log_char_to_packet param c; put_chars param' cs

-- The LOG packet of a message, before it is written.
unfoldable pub fill : Packet → ℕ → List ℕ → Run Packet
fill log level chars = do
  a ← set_data (set_command log CorePacketHandler.log) []
  b ← append_byte a level
  let (str_len, c) = get_write_data b 1
  param ← put_chars (record { pkt = c; bytes_written = 0 }) chars
  d ← append_byte param.pkt 0
  done (record d { storage = set d.storage str_len ((param.bytes_written + 1) % 256) })

module _ (crc8 : Crc8) {W : Type 0} (transport : Transport W) where
  -- `do_log`. A bus without a log packet drops the message.
  unfoldable pub do_log : Bus → ℕ → List ℕ → W → Run (Bus × W × List LogEvent)
  do_log bus level chars w = elim bus.log_packet [
    | none ↦ done (bus, w, [])
    | some log ↦ do
      p ← fill log level chars
      (err, p', e, w', logged) ← write_packet crc8 transport bus.encoder p w
      done (record bus { log_packet = some p'; encoder = e }, w', logged)
  ]
