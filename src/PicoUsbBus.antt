-- ===== src/PicoUsbBus.antt =====
-- src/duino_bus/PicoUsbBus.h and src/PicoUsbBus.cpp: the bus over one interface of TinyUSB's CDC driver.
pub mod Connection
mod Tests
use mathlib.Core.Option.{Option, none, some}
use duino_bus.Base.{
  ℕ, List, [], ◌∷◌, Bool, true, false, if◌then◌else◌, ltb, leb, get_or, set, length,
}
use duino_bus.Bus.{Transport}

-- TinyUSB's functions on one interface, over the state `U` of the driver. `read` gives the byte that
-- was read, if its count is at least 1.
pub record Tusb (U : Type 0) : Type 0 where
  pub available : ℕ → U → ℕ
  pub read : ℕ → U → Option ℕ × U
  pub write_available : ℕ → U → ℕ
  pub write : ℕ → ℕ → U → U
  pub write_flush : ℕ → U → U

-- `g_isConnected`, with an entry for each of four interfaces, and the driver.
pub record World (U : Type 0) : Type 0 where
  pub connected : List Bool
  pub usb : U

abbrev pub no_connections : List Bool
no_connections = false ∷ false ∷ false ∷ false ∷ []

-- `tud_cdc_line_state_cb`
unfoldable pub tud_cdc_line_state_cb : List Bool → ℕ → Bool → Bool → List Bool
tud_cdc_line_state_cb connected intf dtr rts =
    if leb (length connected) intf then connected else set connected intf dtr

-- `isConnected`
unfoldable pub is_connected : List Bool → ℕ → Bool
is_connected connected intf =
    if ltb intf (length connected) then get_or connected intf false else false

module _ {U : Type 0} (tusb : Tusb U) (intf : ℕ) where
  unfoldable pub is_data_available : World U → Bool
  is_data_available w = ltb 0 (tusb.available intf w.usb)

  unfoldable pub is_space_available : World U → Bool
  is_space_available w = ltb 0 (tusb.write_available intf w.usb)

  unfoldable pub read_byte : World U → Option ℕ × World U
  read_byte w = let (byte, usb') = tusb.read intf w.usb in (byte, record w { usb = usb' })

  unfoldable pub write_byte : ℕ → World U → World U
  write_byte byte w =
      if is_connected w.connected intf then record w { usb = tusb.write intf byte w.usb } else w

  unfoldable pub flush : World U → World U
  flush w =
      if is_connected w.connected intf then record w { usb = tusb.write_flush intf w.usb } else w

  abbrev pub transport : Transport (World U)
  transport = record { read_byte = read_byte; write_byte = write_byte; flush = flush }
