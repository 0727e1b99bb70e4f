-- ===== src/Drivers/Acpi.antt =====
-- The ACPI driver: kernel/src/drivers/acpi_driver.rs. The mapping and the tables are the crate
-- acpi's: the parser of the tables is a parameter. The lines of the serial log are left out.
mod Mapping
use compute_kernel.Common.{
  ℕ, ◌==◌, Bool, true, false, Option, none, some, Outcome, done, panic, ◌>>=◌, add_u64,
}

pub record KernelAcpiHandler : Type 0 where
  pub physical_memory_offset : ℕ

-- `KernelAcpiHandler::new`.
abbrev pub new : ℕ → KernelAcpiHandler
new physical_memory_offset = record { physical_memory_offset = physical_memory_offset }

-- `PhysicalMapping`.
pub record PhysicalMapping : Type 0 where
  pub physical_start : ℕ
  pub virtual_start : ℕ
  pub region_length : ℕ
  pub mapped_length : ℕ
  pub handler : KernelAcpiHandler

-- `map_physical_region`: a sum of two u64, which must not be the null pointer.
unfoldable pub map_physical_region : Bool → KernelAcpiHandler → ℕ → ℕ → Outcome PhysicalMapping
map_physical_region checks h physical_address size = do
  virt ← add_u64 checks physical_address h.physical_memory_offset
  elim (virt == 0) [
    | true ↦ panic
    | false ↦ done (record {
      physical_start = physical_address;
      virtual_start = virt;
      region_length = size;
      mapped_length = size;
      handler = h;
    })
  ]

-- `init`, over `AcpiTables::from_rsdp`, which is `none` where that fails.
module _ {ℓ} {AcpiTables : Type ℓ} (from_rsdp : KernelAcpiHandler → ℕ → Option AcpiTables) where
  unfoldable pub init : Option ℕ → ℕ → Option AcpiTables
  init rsdp_addr physical_memory_offset = elim rsdp_addr [
    | none ↦ none
    | some rsdp ↦ from_rsdp (new physical_memory_offset) rsdp
  ]
