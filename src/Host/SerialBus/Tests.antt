-- ===== src/Host/SerialBus/Tests.antt =====
-- A serial port that times out, and what `is_open` says.
use mathlib.Core.Option.{some}
use duino_bus.Base.{ℕ, zero, suc, ◌≡◌, refl, arith, List, [], ◌∷◌, ◌++◌, true, false}
use duino_bus.Crc8.Poly.{poly}
use duino_bus.Encoder.Frame.{frame, escape_all, escape}
use duino_bus.Host
use duino_bus.Host.{Packet}
use duino_bus.Host.Encoder as HostEncoder
use duino_bus.Host.Poly.{crc_fn, poly-Agree}
use duino_bus.Host.Failures.{attempt, verdict, write_packet-attempts}
use duino_bus.Host.SerialBus.{Serial, write_byte, is_open, init, close}

-- A serial port that takes as many bytes as its state says, and then times out.
abbrev slow : Serial (ℕ × List ℕ)
slow = record {
  readable = λ s. false;
  writable = λ s. true;
  read = λ s. ([], s);
  write = λ b s. elim s.0 [ zero ↦ (false, s) | suc n ↦ (true, (n, s.1 ++ (b ∷ []))) ];
  reset_input_buffer = λ s. s;
  reset_output_buffer = λ s. s;
  close = λ s. s;
  fileno = λ s. 5;
}

abbrev fresh : Packet
fresh = record { cmd = 0; bytes = []; crc = 0 }

abbrev host_encoder : HostEncoder.Encoder
host_encoder = record {
  packet = fresh;
  state = HostEncoder.State.idle;
  encode_idx = 0;
  escape_char = 0;
  debug = false;
}

abbrev short_ping : Packet
short_ping = record { cmd = 1; bytes = 0xc0 ∷ []; crc = 0 }

write_packet-attempts_example :
    (e' : HostEncoder.Encoder) × (let bs = frame 1 (0xc0 ∷ []) (Host.calc_crc crc_fn short_ping) in
      HostEncoder.write_packet crc_fn (write_byte slow) host_encoder short_ping (some (3, [])) ≡ (
        verdict (attempt (write_byte slow) bs (some (3, []))).0,
        Host.calc_and_store_crc crc_fn short_ping,
        e',
        (attempt (write_byte slow) bs (some (3, []))).1,
      ))
write_packet-attempts_example =
    write_packet-attempts poly crc_fn poly-Agree (write_byte slow) host_encoder short_ping
      (some (3, [])) (omega arith) (omega arith) (omega arith) (omega arith)

-- Three bytes are taken, and the fourth is not.
three_taken :
    attempt (write_byte slow) (frame 1 (0xc0 ∷ []) 0) (some (3, []))
    ≡ (false, some (0, 0xc0 ∷ 1 ∷ 0xdb ∷ []))
unfolding write_byte frame escape_all escape
three_taken = refl

-- A bus says that it is open before it has been opened, and not behind `close`.
open_at_first :
    (is_open (init {S = ℕ × List ℕ} (0, [])).serial ≡ true)
    × (is_open (close slow (init (0, []))).0.serial ≡ false)
unfolding is_open init close
open_at_first = (refl, refl)
