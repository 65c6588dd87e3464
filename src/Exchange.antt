-- ===== src/Exchange.antt =====
-- Two buses of src/Bus.cpp and a queue of bytes in each direction between them: a request of a host to
-- a device, and its response.
pub mod Poll
pub mod Ping
mod Tests
use mathlib.Core.Option.{Option, none, some}
use duino_bus.Base.{ℕ, zero, suc, List, [], ◌∷◌, ◌++◌, Bool, Run, done, ◌>>=◌, length}
use duino_bus.Crc8.{Crc8}
use duino_bus.Packet.{Packet, Error}
use duino_bus.Bus.{Bus, Transport, process_byte, write_packet, handle_packet}

-- The bytes for one of the buses to read, oldest first, and those that it has written.
pub record Channel : Type 0 where
  pub incoming : List ℕ
  pub outgoing : List ℕ

abbrev pub channel : List ℕ → Channel
channel bytes = record { incoming = bytes; outgoing = [] }

abbrev pub read_first : List ℕ → Channel → Option ℕ × Channel
read_first [] ch = (none, ch)
read_first (b ∷ bs) ch = (some b, record ch { incoming = bs })

abbrev pub queue : Transport Channel
queue = record {
  read_byte = λ ch. read_first ch.incoming ch;
  write_byte = λ b ch. record ch { outgoing = ch.outgoing ++ (b ∷ []) };
  flush = λ ch. ch;
}

module _ (crc8 : Crc8) where
  -- Calls of `processByte` until one answers something else than `not_done`, at most so many.
  unfoldable pub poll : ℕ → Bus → Channel → Run (Error × Bus × Channel)
  poll zero bus ch = done (Error.not_done, bus, ch)
  poll (suc n) bus ch = do
    (err, bus', ch', logged) ← process_byte crc8 queue bus ch
    elim err [ Error.not_done ↦ poll n bus' ch' | ended ↦ done (ended, bus', ch') ]

  -- The host writes a packet; the device reads it, handles it and writes a response; the host reads
  -- that. The answer of the host's last `processByte`, that of the device's `handlePacket`, and the two
  -- buses.
  unfoldable pub exchange : Bus → Bus → Packet → Run (Error × Bool × Bus × Bus)
  exchange host device request = do
    (err, request', e, to_device, logged) ←
        write_packet crc8 queue host.encoder request (channel [])
    (err', device', rest) ← poll (length to_device.outgoing) device (channel to_device.outgoing)
    (took, device'', to_host, logged') ← handle_packet crc8 queue device' rest
    (err'', host', rest') ←
        poll (length to_host.outgoing) (record host { encoder = e }) (channel to_host.outgoing)
    done (err'', took, host', device'')
