-- ===== src/Drivers/Binding/Exclusive.antt =====
-- The drivers of kernel/src/drivers/ that bind a PCI device by its class do not contend for it.
use compute_kernel.Common.{ℕ, ◌+◌, ◌≤◌, arith, Option, none, some}
use compute_kernel.Drivers.Pci.{PciDevice}
use compute_kernel.Drivers.Binding.{ahci_probe, nvme_probe, hda_probe, xhci_probe}

abbrev pub claims {ℓ} : {A : Type ℓ} → Option A → ℕ
claims none = 0
claims (some a) = 1

-- At most one of the drivers for AHCI, NVMe, HDA and xHCI takes a device.
pub one_driver :
    (pci : PciDevice)
    → claims (ahci_probe pci)
        + claims (nvme_probe pci)
        + claims (hda_probe pci)
        + claims (xhci_probe pci)
      ≤ 1
unfolding ahci_probe nvme_probe hda_probe xhci_probe
one_driver pci = ground arith
