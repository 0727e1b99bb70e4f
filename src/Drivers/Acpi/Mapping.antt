-- ===== src/Drivers/Acpi/Mapping.antt =====
-- The addresses that the ACPI driver (kernel/src/drivers/acpi_driver.rs) maps, and the way back that
-- kernel/src/memory/paging.rs has.
use compute_kernel.Common.{ℕ, ◌+◌, ◌^◌, ◌<◌, ◌≤◌, ◌≡◌, refl, Bool, some, arith, true, done, panic}
use compute_kernel.Memory.{phys_from_virt}
use compute_kernel.Drivers.Acpi.{PhysicalMapping, new, map_physical_region}

-- A region whose virtual address fits a u64 and is not 0 is mapped, with the length asked for, in
-- either build, and `phys_from_virt` takes the virtual address back to the physical one.
map_physical_region-phys_from_virt :
    (checks : Bool) (offset address size : ℕ)
    → 0 < address + offset
    → address + offset < 2 ^ 64
    → (m : PhysicalMapping) × ((map_physical_region checks (new offset) address size ≡ done m)
        × ((phys_from_virt m.virtual_start offset ≡ some address)
            × ((m.region_length ≡ size) × (m.mapped_length ≡ size))))
unfolding map_physical_region phys_from_virt
map_physical_region-phys_from_virt checks offset address size h h' =
    let m : PhysicalMapping = record {
      physical_start = address;
      virtual_start = address + offset;
      region_length = size;
      mapped_length = size;
      handler = new offset;
    } in
    (m, (ground arith, (ground arith, (refl, refl))))

-- An overflow of the sum is a panic in a build that checks for it.
map_physical_region-overflow :
    (offset address size : ℕ)
    → 2 ^ 64 ≤ address + offset
    → map_physical_region true (new offset) address size ≡ panic
unfolding map_physical_region
map_physical_region-overflow offset address size h = ground arith
