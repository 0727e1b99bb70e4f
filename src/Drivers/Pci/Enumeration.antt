-- ===== src/Drivers/Pci/Enumeration.antt =====
-- What `enumerate` of kernel/src/drivers/pci.rs finds: how often a function stands in its list.
use compute_kernel.Common.{
  ℕ, zero, suc, ◌+◌, ◌<◌, ◌≤◌, ◌≡◌, ◌≢◌, ◌⊎◌, inl, inr, refl, ◌∙◌, Bool, ◌&&◌, ◌||◌, List, [], ◌∷◌,
  ◌++◌, arith, ◌==◌, if◌then◌else◌, Bool-cases, lt_cases,
}
use compute_kernel.Drivers.Pci.{
  PciDevice, device_exists, device_at, probe, is_multi_function, probe_functions, probe_device,
  probe_devices, probe_buses, enumerate,
}

-- The devices of a list that are at a place.
pub count_at : ℕ → ℕ → ℕ → List PciDevice → ℕ
count_at b d f [] = 0
count_at b d f (p ∷ ps) =
    let rest = count_at b d f ps in
    if p.bus == b && (p.device == d && p.function == f) then suc rest else rest

count_at-append :
    (b d f : ℕ) (ps qs : List PciDevice)
    → count_at b d f (ps ++ qs) ≡ count_at b d f ps + count_at b d f qs
unfolding count_at
count_at-append b d f [] qs = omega arith
count_at-append b d f (p ∷ ps) qs = ground (arith, count_at-append b d f ps qs)

-- What a device at one place counts at another.
abbrev hit : ℕ → ℕ → ℕ → ℕ → ℕ → ℕ → ℕ
hit bus device function b d f = if bus == b && (device == d && function == f) then 1 else 0

hit_miss :
    (bus device function b d f : ℕ)
    → ((bus ≢ b) ⊎ (device ≢ d)) ⊎ (function ≢ f)
    → hit bus device function b d f ≡ 0
hit_miss bus device function b d f h = ground arith

hit_self : (b d f : ℕ) → hit b d f b d f ≡ 1
hit_self b d f = ground arith

module _ (config : ℕ → ℕ) where
  -- A function is reached when it is function 0, or the device says that it has several.
  unfoldable pub reached : ℕ → ℕ → ℕ → Bool
  reached b d f =
      device_exists config b d f
      && (f == 0
          || (device_exists config b d 0 && is_multi_function config (device_at config b d 0)))

  count_cons :
      (b d f bus device function : ℕ) (rest : List PciDevice)
      → count_at b d f (device_at config bus device function ∷ rest)
        ≡ hit bus device function b d f + count_at b d f rest
  unfolding count_at device_at
  count_cons b d f bus device function rest = ground arith

  probe_functions_step :
      (n b d f bus device function : ℕ)
      → count_at b d f (probe_functions config bus device function (suc n))
        ≡ (if device_exists config bus device function then hit bus device function b d f else 0)
          + count_at b d f (probe_functions config bus device (function + 1) n)
  unfolding probe_functions probe
  probe_functions_step n b d f bus device function =
      let rest = probe_functions config bus device (function + 1) n in
      elim (Bool-cases (device_exists config bus device function)) [
        | inl e ↦ rw (probe_functions, e) (count_cons b d f bus device function rest)
        | inr e ↦ rw (probe_functions, e) (omega arith)
      ]

  probe_functions_other :
      (n b d f bus device function : ℕ)
      → ((bus ≢ b) ⊎ (device ≢ d)) ⊎ (f < function)
      → count_at b d f (probe_functions config bus device function n) ≡ 0
  unfolding count_at probe_functions
  probe_functions_other zero b d f bus device function h = refl
  probe_functions_other (suc n) b d f bus device function h =
      let behind = probe_functions_other n b d f bus device (function + 1) (grind arith) in
      let miss = hit_miss bus device function b d f (grind arith) in
      probe_functions_step n b d f bus device function ∙ rw (miss, behind) (ground arith)

  probe_functions_count :
      (n b d f function : ℕ)
      → function ≤ f
      → f < function + n
      → count_at b d f (probe_functions config b d function n)
        ≡ (if device_exists config b d f then 1 else 0)
  probe_functions_count zero b d f function h k = absurd (omega arith)
  probe_functions_count (suc n) b d f function h k = elim (lt_cases function f) [
    | inl below ↦
        let miss = hit_miss b d function b d f (inr (λ e. omega arith)) in
        let behind = probe_functions_count n b d f (function + 1) (omega arith) (omega arith) in
        probe_functions_step n b d f b d function ∙ rw (miss, behind) (ground arith)
    | inr above ↦
        let same : function ≡ f = omega arith in
        let behind = probe_functions_other n b d f b d (f + 1) (inr (omega arith)) in
        probe_functions_step n b d f b d function ∙ rw (same, behind, hit_self b d f) (omega arith)
  ]

  probe_device_step :
      (b d f bus device : ℕ)
      → count_at b d f (probe_device config bus device) ≡ (
          if device_exists config bus device 0
          then hit bus device 0 b d f
            + (if is_multi_function config (device_at config bus device 0)
                then count_at b d f (probe_functions config bus device 1 7)
                else 0)
          else 0)
  unfolding probe_device probe count_at
  probe_device_step b d f bus device = elim (Bool-cases (device_exists config bus device 0)) [
    | inr e ↦ rw (probe_device, e) refl
    | inl e ↦ elim (Bool-cases (is_multi_function config (device_at config bus device 0))) [
      | inl m ↦
          rw (probe_device, e, m)
            (count_cons b d f bus device 0 (probe_functions config bus device 1 7))
      | inr m ↦ rw (probe_device, e, m) (count_cons b d f bus device 0 [])
    ]
  ]

  probe_device_other :
      (b d f bus device : ℕ)
      → (bus ≢ b) ⊎ (device ≢ d)
      → count_at b d f (probe_device config bus device) ≡ 0
  probe_device_other b d f bus device h =
      let behind = probe_functions_other 7 b d f bus device 1 (inl h) in
      let miss = hit_miss bus device 0 b d f (inl h) in
      probe_device_step b d f bus device ∙ rw (miss, behind) (ground arith)

  probe_device_count :
      (b d f : ℕ)
      → f < 8
      → count_at b d f (probe_device config b d) ≡ (if reached b d f then 1 else 0)
  unfolding reached
  probe_device_count b d zero h =
      let behind = probe_functions_other 7 b d 0 b d 1 (inr (omega arith)) in
      probe_device_step b d 0 b d ∙ rw (hit_self b d 0, behind) (ground arith)
  probe_device_count b d (suc f) h =
      let behind = probe_functions_count 7 b d (suc f) 1 (omega arith) (omega arith) in
      let miss = hit_miss b d 0 b d (suc f) (inr (λ e. omega arith)) in
      probe_device_step b d (suc f) b d ∙ rw (miss, behind) (ground arith)

  probe_devices_other :
      (n b d f bus device : ℕ)
      → (bus ≢ b) ⊎ (d < device)
      → count_at b d f (probe_devices config bus device n) ≡ 0
  unfolding probe_devices count_at
  probe_devices_other zero b d f bus device h = refl
  probe_devices_other (suc n) b d f bus device h =
      let here = probe_device_other b d f bus device (grind arith) in
      let behind = probe_devices_other n b d f bus (device + 1) (grind arith) in
      count_at-append b d f (probe_device config bus device)
        (probe_devices config bus (device + 1) n)
      ∙ rw (here, behind) refl

  probe_devices_count :
      (n b d f device : ℕ)
      → device ≤ d
      → d < device + n
      → f < 8
      → count_at b d f (probe_devices config b device n) ≡ (if reached b d f then 1 else 0)
  unfolding probe_devices
  probe_devices_count zero b d f device h k small = absurd (omega arith)
  probe_devices_count (suc n) b d f device h k small =
      let rest = probe_devices config b (device + 1) n in
      let split = count_at-append b d f (probe_device config b device) rest in
      elim (lt_cases device d) [
        | inl below ↦
            let here = probe_device_other b d f b device (inr (λ e. omega arith)) in
            let behind =
              probe_devices_count n b d f (device + 1) (omega arith) (omega arith) small in
            split ∙ rw (here, behind) (omega arith)
        | inr above ↦
            let same : device ≡ d = omega arith in
            let behind = probe_devices_other n b d f b (device + 1) (inr (omega arith)) in
            split ∙ rw (behind, same, probe_device_count b d f small) (omega arith)
      ]

  probe_buses_other : (n b d f bus : ℕ) → b < bus → count_at b d f (probe_buses config bus n) ≡ 0
  unfolding probe_buses count_at
  probe_buses_other zero b d f bus h = refl
  probe_buses_other (suc n) b d f bus h =
      let here = probe_devices_other 32 b d f bus 0 (inl (λ e. omega arith)) in
      let behind = probe_buses_other n b d f (bus + 1) (omega arith) in
      count_at-append b d f (probe_devices config bus 0 32) (probe_buses config (bus + 1) n)
      ∙ rw (here, behind) refl

  probe_buses_count :
      (n b d f bus : ℕ)
      → bus ≤ b
      → b < bus + n
      → d < 32
      → f < 8
      → count_at b d f (probe_buses config bus n) ≡ (if reached b d f then 1 else 0)
  unfolding probe_buses
  probe_buses_count zero b d f bus h k device small = absurd (omega arith)
  probe_buses_count (suc n) b d f bus h k device small =
      let rest = probe_buses config (bus + 1) n in
      let split = count_at-append b d f (probe_devices config bus 0 32) rest in
      elim (lt_cases bus b) [
        | inl below ↦
            let here = probe_devices_other 32 b d f bus 0 (inl (λ e. omega arith)) in
            let behind =
              probe_buses_count n b d f (bus + 1) (omega arith) (omega arith) device small in
            split ∙ rw (here, behind) (omega arith)
        | inr above ↦
            let same : bus ≡ b = omega arith in
            let behind = probe_buses_other n b d f (bus + 1) (omega arith) in
            split
            ∙ rw (behind, same, probe_devices_count 32 b d f 0 (omega arith) (omega arith) small)
                (omega arith)
      ]

  -- The enumeration lists a function of a device once when the function is present, and is function
  -- 0 or one of a present device that says that it has several; otherwise it does not list it.
  pub enumerate_once :
      (b d f : ℕ)
      → b < 256
      → d < 32
      → f < 8
      → count_at b d f (enumerate config) ≡ (if reached b d f then 1 else 0)
  unfolding enumerate
  enumerate_once b d f bus device small =
      probe_buses_count 256 b d f 0 (omega arith) (omega arith) device small
