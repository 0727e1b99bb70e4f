-- ===== src/Drivers/Pci/Address.antt =====
-- The addresses of the PCI configuration space (kernel/src/drivers/pci.rs): what a bus, a device, a
-- function and an offset come to.
use compute_kernel.Common.{
  ℕ, ◌+◌, ◌*◌, ◌/◌, ◌%◌, ◌^◌, ◌<◌, ◌≡◌, refl, arith, bit_and, bit_or, bit_and-low, bit_and-digit,
  bit_or-add,
}
use compute_kernel.Drivers.Pci.{config_address}

-- The offset of the dword that holds a byte.
dword_offset : (offset : ℕ) → offset < 256 → bit_and offset 0xfc ≡ offset / 4 * 4
dword_offset offset h =
    let quarter : offset / 2 / 2 ≡ offset / 4 = omega arith in
    omega (
      arith,
      bit_and-digit offset 0xfc,
      bit_and-digit (offset / 2) 0x7e,
      bit_and-low 6 (offset / 2 / 2) 63 refl,
    )

config_address_sum :
    (bus device function offset : ℕ)
    → bus < 256
    → device < 32
    → function < 8
    → offset < 256
    → config_address bus device function offset
      ≡ 2 ^ 31 + bus * 2 ^ 16 + device * 2 ^ 11 + function * 2 ^ 8 + offset / 4 * 4
unfolding config_address
config_address_sum bus device function offset b d f o =
    let s₁ : bit_or (2 ^ 31) (bus * 2 ^ 16) ≡ (2 ^ 15 + bus) * 2 ^ 16 =
      omega (arith, bit_or-add 24 (2 ^ 7) (bus * 2 ^ 16) (omega arith)) in
    let s₂ : bit_or ((2 ^ 15 + bus) * 2 ^ 16) (device * 2 ^ 11)
        ≡ ((2 ^ 15 + bus) * 2 ^ 5 + device) * 2 ^ 11 =
      omega (arith, bit_or-add 16 (2 ^ 15 + bus) (device * 2 ^ 11) (omega arith)) in
    let s₃ : bit_or (((2 ^ 15 + bus) * 2 ^ 5 + device) * 2 ^ 11) (function * 2 ^ 8)
        ≡ (((2 ^ 15 + bus) * 2 ^ 5 + device) * 2 ^ 3 + function) * 2 ^ 8 =
      omega
        (arith, bit_or-add 11 ((2 ^ 15 + bus) * 2 ^ 5 + device) (function * 2 ^ 8) (omega arith)) in
    rw (s₁, s₂, s₃, dword_offset offset o)
      (omega (
        arith,
        bit_or-add 8 (((2 ^ 15 + bus) * 2 ^ 5 + device) * 2 ^ 3 + function) (offset / 4 * 4)
            (omega arith),
      ))

-- The address fits a u32, has the enable bit, and gives back the bus, the device, the function and
-- the dword of the offset.
config_address_fields :
    (bus device function offset : ℕ)
    → bus < 256
    → device < 32
    → function < 8
    → offset < 256
    → let address = config_address bus device function offset in
      (address < 2 ^ 32)
      × ((address / 2 ^ 31 ≡ 1)
          × ((address / 2 ^ 16 % 2 ^ 15 ≡ bus)
              × ((address / 2 ^ 11 % 32 ≡ device)
                  × ((address / 2 ^ 8 % 8 ≡ function) × (address % 2 ^ 8 ≡ offset / 4 * 4)))))
config_address_fields bus device function offset b d f o =
    let sum = config_address_sum bus device function offset b d f o in
    (omega arith, (omega arith, (omega arith, (omega arith, (omega arith, omega arith)))))
