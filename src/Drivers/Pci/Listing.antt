-- ===== src/Drivers/Pci/Listing.antt =====
-- What `init` of kernel/src/drivers/pci.rs writes to the serial log.
use compute_kernel.Common.{
  ℕ, zero, suc, ◌+◌, ◌/◌, ◌%◌, List, [], ◌∷◌, ◌++◌, ltb, if◌then◌else◌, codes, length, show_u64,
  Outcome, done, ◌>>=◌,
}
use compute_kernel.Drivers.Serial.{Uart, serial_println}
use compute_kernel.Drivers.Pci.{PciDevice, enumerate}

-- A digit of `{:x}`.
abbrev hex_digit : ℕ → ℕ
hex_digit d = if ltb d 10 then 48 + d else 87 + d

-- The last `width` digits.
unfoldable pub hex : ℕ → ℕ → List ℕ
hex zero n = []
hex (suc width) n = hex width (n / 16) ++ (hex_digit (n % 16) ∷ [])

-- The long dash of the text, in UTF-8.
abbrev pub dash : List ℕ
dash = 0xe2 ∷ 0x80 ∷ 0x94 ∷ []

-- `{:02x}` of a u8 and `{:#06x}` of a u16 have two and four digits.
unfoldable pub device_line : PciDevice → List ℕ
unfolding hex
device_line dev =
    codes "[PCI] "
    ++ (hex 2 dev.bus
        ++ (codes ":"
            ++ (hex 2 dev.device
                ++ (codes "."
                    ++ (show_u64 dev.function
                        ++ (codes " "
                            ++ (dash
                                ++ (codes " vendor=0x"
                                    ++ (hex 4 dev.vendor_id
                                        ++ (codes " device=0x"
                                            ++ (hex 4 dev.device_id
                                                ++ (codes " class=0x"
                                                    ++ (hex 2 dev.class
                                                        ++ (codes "/0x"
                                                            ++ hex 2 dev.subclass))))))))))))))

module _ {Port : Type 0} (uart : Uart Port) where
  unfoldable pub log_devices : List PciDevice → Port → Outcome Port
  log_devices [] port = done port
  log_devices (dev ∷ devices) port = do
    written ← serial_println uart (device_line dev) port
    log_devices devices written

  unfoldable pub init : (ℕ → ℕ) → Port → Outcome Port
  init config port = do
    written ← log_devices (enumerate config) port
    serial_println uart
        (codes "[PCI] Found " ++ (show_u64 (length (enumerate config)) ++ codes " device(s)"))
        written
