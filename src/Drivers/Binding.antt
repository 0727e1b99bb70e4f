-- ===== src/Drivers/Binding.antt =====
-- The driver stubs: kernel/src/drivers/ahci.rs, nvme.rs, network/e1000.rs, audio/hda.rs,
-- usb/xhci.rs, which bind PCI devices, and bluetooth/hci.rs. Their calls all fail with a text, and
-- change nothing. The lines of the serial log are left out.
pub mod Exclusive
use compute_kernel.Common.{ℕ, Bool, ◌&&◌, Option, none, some, List, ◌==◌, if◌then◌else◌, codes}
use compute_kernel.Drivers.Pci.{PciDevice}

-- `Result<T, &'static str>`.
pub data Attempt (A : Type 0) : Type 0 where
  ok : A → Attempt A
  err : List ℕ → Attempt A

pub record AhciController : Type 0 where
  pub pci : PciDevice

pub record NvmeController : Type 0 where
  pub pci : PciDevice

pub record E1000Driver : Type 0 where
  pub pci : PciDevice

pub record HdaController : Type 0 where
  pub pci : PciDevice

pub record XhciController : Type 0 where
  pub pci : PciDevice

unfoldable pub ahci_probe : PciDevice → Option AhciController
ahci_probe pci =
    if pci.class == 0x01 && (pci.subclass == 0x06 && pci.prog_if == 0x01)
    then some (record { pci = pci })
    else none

unfoldable pub nvme_probe : PciDevice → Option NvmeController
nvme_probe pci =
    if pci.class == 0x01 && pci.subclass == 0x08 then some (record { pci = pci }) else none

unfoldable pub e1000_probe : PciDevice → Option E1000Driver
e1000_probe pci =
    if pci.vendor_id == 0x8086 && pci.device_id == 0x100e then some (record { pci = pci }) else none

unfoldable pub hda_probe : PciDevice → Option HdaController
hda_probe pci =
    if pci.class == 0x04 && pci.subclass == 0x03 then some (record { pci = pci }) else none

unfoldable pub xhci_probe : PciDevice → Option XhciController
xhci_probe pci =
    if pci.class == 0x0c && (pci.subclass == 0x03 && pci.prog_if == 0x30)
    then some (record { pci = pci })
    else none

-- The calls of the stubs.
abbrev pub ahci_sectors : AhciController → ℕ → ℕ → ℕ → List ℕ → Attempt (Unit {0})
ahci_sectors controller port lba count buf = err (codes "AHCI driver not yet implemented")

abbrev pub nvme_blocks : NvmeController → ℕ → ℕ → List ℕ → Attempt (Unit {0})
nvme_blocks controller lba count buf = err (codes "NVMe driver not yet implemented")

abbrev pub e1000_send : E1000Driver → List ℕ → Attempt (Unit {0})
e1000_send driver frame = err (codes "e1000 driver not yet implemented")

abbrev pub e1000_recv : E1000Driver → List ℕ → Attempt ℕ
e1000_recv driver buf = err (codes "e1000 driver not yet implemented")

abbrev pub hda_play_pcm : HdaController → List ℕ → Attempt (Unit {0})
hda_play_pcm controller samples = err (codes "HDA driver not yet implemented")

abbrev pub xhci_enumerate_devices : XhciController → Attempt (Unit {0})
xhci_enumerate_devices controller = err (codes "xHCI driver not yet implemented")

pub data BluetoothHci : Type 0 where
  bluetooth_hci : BluetoothHci

abbrev pub hci_init : Attempt BluetoothHci
hci_init = ok bluetooth_hci

abbrev pub hci_send_command : BluetoothHci → ℕ → List ℕ → Attempt (Unit {0})
hci_send_command hci opcode params = err (codes "Bluetooth HCI not yet implemented")

abbrev pub hci_read_event : BluetoothHci → List ℕ → Attempt ℕ
hci_read_event hci buf = err (codes "Bluetooth HCI not yet implemented")
