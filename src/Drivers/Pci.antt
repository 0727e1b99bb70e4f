-- ===== src/Drivers/Pci.antt =====
-- PCI enumeration: kernel/src/drivers/pci.rs. The configuration space is hardware: `config` gives
-- the dword at the address that was written to the address port. Buses, devices, functions and
-- offsets are u8. Drivers/Pci/Listing has `init`, which writes the devices to the serial log.
pub mod Address
pub mod Enumeration
pub mod Listing
use compute_kernel.Common.{
  ℕ, zero, suc, ◌+◌, ◌*◌, ◌/◌, ◌%◌, ◌^◌, Bool, not, Option, none, some, List, [], ◌∷◌, ◌++◌, ◌==◌,
  ltb, if◌then◌else◌, bit_and, bit_or, Outcome, done, panic, ◌>>=◌,
}

pub record PciDevice : Type 0 where
  pub bus : ℕ
  pub device : ℕ
  pub function : ℕ
  pub vendor_id : ℕ
  pub device_id : ℕ
  pub class : ℕ
  pub subclass : ℕ
  pub prog_if : ℕ
  pub revision : ℕ
  pub header_type : ℕ

abbrev pub config_address_port : ℕ
config_address_port = 0xcf8

abbrev pub config_data_port : ℕ
config_data_port = 0xcfc

-- The address of a dword, a u32.
unfoldable pub config_address : ℕ → ℕ → ℕ → ℕ → ℕ
config_address bus device function offset =
    bit_or (bit_or (bit_or (bit_or (2 ^ 31) (bus * 2 ^ 16)) (device * 2 ^ 11)) (function * 2 ^ 8))
      (bit_and offset 0xfc)

-- `config_write32`: the writes to ports that it makes, in order.
unfoldable pub config_write32 : ℕ → ℕ → ℕ → ℕ → ℕ → List (ℕ × ℕ)
config_write32 bus device function offset value =
    (config_address_port, config_address bus device function offset)
    ∷ (config_data_port, value)
    ∷ []

module _ (config : ℕ → ℕ) where
  unfoldable pub config_read32 : ℕ → ℕ → ℕ → ℕ → ℕ
  config_read32 bus device function offset = config (config_address bus device function offset)

  -- `offset & !2` picks the dword, `(offset & 2) * 8` the shift.
  unfoldable pub config_read16 : ℕ → ℕ → ℕ → ℕ → ℕ
  config_read16 bus device function offset =
      let dword = config_read32 bus device function (bit_and offset 0xfd) in
      dword / 2 ^ (bit_and offset 2 * 8) % 2 ^ 16

  -- `0x10 + bar_index * 4` on a u8.
  unfoldable pub read_bar : Bool → PciDevice → ℕ → Outcome ℕ
  read_bar checks dev bar_index =
      let offset = 0x10 + bar_index * 4 in
      if ltb offset 256
      then done (config_read32 dev.bus dev.device dev.function offset)
      else if checks
      then panic
      else done (config_read32 dev.bus dev.device dev.function (offset % 256))

  unfoldable pub device_exists : ℕ → ℕ → ℕ → Bool
  device_exists bus device function =
      not (bit_and (config_read32 bus device function 0) 0xffff == 0xffff)

  -- The device that `probe` reads.
  unfoldable pub device_at : ℕ → ℕ → ℕ → PciDevice
  device_at bus device function =
      let dw0 = config_read32 bus device function 0 in
      let dw2 = config_read32 bus device function 8 in
      let dw3 = config_read32 bus device function 0xc in
      record {
        bus = bus;
        device = device;
        function = function;
        vendor_id = bit_and dw0 0xffff;
        device_id = dw0 / 2 ^ 16 % 2 ^ 16;
        class = bit_and (dw2 / 2 ^ 24) 0xff;
        subclass = bit_and (dw2 / 2 ^ 16) 0xff;
        prog_if = bit_and (dw2 / 2 ^ 8) 0xff;
        revision = bit_and dw2 0xff;
        header_type = bit_and (dw3 / 2 ^ 16) 0xff;
      }

  unfoldable pub probe : ℕ → ℕ → ℕ → Option PciDevice
  probe bus device function =
      if device_exists bus device function then some (device_at bus device function) else none

  -- `dev.header_type & 0x80 != 0`.
  abbrev pub is_multi_function : PciDevice → Bool
  is_multi_function dev = not (bit_and dev.header_type 0x80 == 0)

  -- `for function in 1u8..8`, from `function` on, `n` rounds.
  unfoldable pub probe_functions : ℕ → ℕ → ℕ → ℕ → List PciDevice
  probe_functions bus device function zero = []
  probe_functions bus device function (suc n) =
      let rest = probe_functions bus device (function + 1) n in
      elim (probe bus device function) [ none ↦ rest | some dev ↦ dev ∷ rest ]

  -- What one round of the loop over the devices pushes.
  unfoldable pub probe_device : ℕ → ℕ → List PciDevice
  probe_device bus device = elim (probe bus device 0) [
    | none ↦ []
    | some dev ↦ dev ∷ (if is_multi_function dev then probe_functions bus device 1 7 else [])
  ]

  -- `for device in 0u8..32`, from `device` on.
  unfoldable pub probe_devices : ℕ → ℕ → ℕ → List PciDevice
  probe_devices bus device zero = []
  probe_devices bus device (suc n) = probe_device bus device ++ probe_devices bus (device + 1) n

  -- `for bus in 0u8..=255`, from `bus` on.
  unfoldable pub probe_buses : ℕ → ℕ → List PciDevice
  probe_buses bus zero = []
  probe_buses bus (suc n) = probe_devices bus 0 32 ++ probe_buses (bus + 1) n

  unfoldable pub enumerate : List PciDevice
  enumerate = probe_buses 0 256
