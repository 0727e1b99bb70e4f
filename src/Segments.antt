-- ===== src/Segments.antt =====
-- The segments and the interrupt stacks: kernel/src/arch/x86_64/gdt.rs. The descriptor table, its
-- selectors and the arithmetic of addresses are the crate x86_64's: they are parameters. Where the
-- two stacks stand in memory is a parameter too.
pub mod Loading
pub mod ListTables
mod Tests
use compute_kernel.Common.{
  ℕ, suc, ◌+◌, ◌*◌, ◌≤◌, ◌<◌, ◌≡◌, Option, none, some, List, [], ◌∷◌, if◌then◌else◌, ltb, length,
  set, Outcome, done, panic, ◌>>=◌,
}

abbrev pub double_fault_ist_index : ℕ
double_fault_ist_index = 0

abbrev pub gpf_ist_index : ℕ
gpf_ist_index = 1

abbrev pub ist_stack_size : ℕ
ist_stack_size = 4096 * 5

-- `TaskStateSegment`, as far as the kernel fills it in.
pub record TaskState : Type 0 where
  pub interrupt_stack_table : List ℕ

-- `Descriptor`, by the functions that make one.
pub data Descriptor : Type 0 where
  kernel_code_segment kernel_data_segment user_data_segment user_code_segment : Descriptor
  tss_segment : TaskState → Descriptor

-- A system segment takes two entries of a table.
abbrev pub entries : Descriptor → ℕ
entries (tss_segment tss) = 2
entries _ = 1

-- `GlobalDescriptorTable<8>` and `SegmentSelector`: `append` puts a descriptor into the next free
-- entries and gives a selector for it, and panics when they do not fit. Entry 0 is the null entry.
pub record Tables (Table Selector : Type 0) : Type 0 where
  pub new_table : Table
  pub append : Descriptor → Table → Outcome (Selector × Table)
  pub index : Selector → ℕ
  pub used : Table → ℕ
  pub entry : Table → ℕ → Option Descriptor
  pub used-new_table : used new_table ≡ 1
  pub append_fits :
      (d : Descriptor) (t : Table)
      → used t + entries d ≤ 8
      → (s : Selector) × ((t' : Table) × ((append d t ≡ done (s, t'))
            × ((index s ≡ used t)
                × ((used t' ≡ used t + entries d)
                    × ((entry t' (used t) ≡ some d)
                        × ((i : ℕ) → i < used t → entry t' i ≡ entry t i))))))

pub record Selectors (Selector : Type 0) : Type 0 where
  pub kernel_code : Selector
  pub kernel_data : Selector
  pub user_code : Selector
  pub user_data : Selector
  pub tss : Selector

pub record GdtHolder (Table Selector : Type 0) : Type 0 where
  pub gdt : Table
  pub selectors : Selectors Selector

-- The statics TSS and GDT, and the registers that `init` loads.
pub record Segments (Table Selector : Type 0) : Type 0 where
  pub tss_once : Option TaskState
  pub gdt_once : Option (GdtHolder Table Selector)
  pub gdtr : Option Table
  pub cs : Option Selector
  pub ds : Option Selector
  pub task : Option Selector

-- `Once::call_once`: what the first call has made.
abbrev pub call_once {ℓ} : {A : Type ℓ} → Option A → Outcome A → Outcome A
call_once (some a) make = done a
call_once none make = make

-- `table[i] = v`.
abbrev pub assign : List ℕ → ℕ → ℕ → Outcome (List ℕ)
assign table i v = if ltb i (length table) then done (set table i v) else panic

-- `TaskStateSegment::new`, the sum of an address and a number, and where the stacks start.
module _ (new_tss : TaskState) (virt_add : ℕ → ℕ → Outcome ℕ)
    (double_fault_stack gpf_stack : ℕ) where
  unfoldable pub build_tss : Outcome TaskState
  build_tss = do
    double_fault_top ← virt_add double_fault_stack ist_stack_size
    filled ← assign new_tss.interrupt_stack_table double_fault_ist_index double_fault_top
    gpf_top ← virt_add gpf_stack ist_stack_size
    both ← assign filled gpf_ist_index gpf_top
    done (record { interrupt_stack_table = both })

module _ {Table Selector : Type 0} (tables : Tables Table Selector) where
  unfoldable pub build_gdt : TaskState → Outcome (GdtHolder Table Selector)
  build_gdt tss = do
    (kernel_code, gdt₁) ← tables.append kernel_code_segment tables.new_table
    (kernel_data, gdt₂) ← tables.append kernel_data_segment gdt₁
    (user_data, gdt₃) ← tables.append user_data_segment gdt₂
    (user_code, gdt₄) ← tables.append user_code_segment gdt₃
    (tss_sel, gdt₅) ← tables.append (tss_segment tss) gdt₄
    done (record {
      gdt = gdt₅;
      selectors = record {
        kernel_code = kernel_code;
        kernel_data = kernel_data;
        user_code = user_code;
        user_data = user_data;
        tss = tss_sel;
      };
    })

  -- `init`, given what `build_tss` makes.
  unfoldable pub init :
      Outcome TaskState → Segments Table Selector → Outcome (Segments Table Selector)
  init made s = do
    tss ← call_once s.tss_once made
    holder ← call_once s.gdt_once (build_gdt tss)
    done (record {
      tss_once = some tss;
      gdt_once = some holder;
      gdtr = some holder.gdt;
      cs = some holder.selectors.kernel_code;
      ds = some holder.selectors.kernel_data;
      task = some holder.selectors.tss;
    })

-- The statics before the first call, and registers that the kernel has not loaded.
abbrev pub unset : {Table Selector : Type 0} → Segments Table Selector
unset = record { tss_once = none; gdt_once = none; gdtr = none; cs = none; ds = none; task = none }

unfoldable pub kernel_code_selector :
    {Table Selector : Type 0} → Segments Table Selector → Outcome Selector
kernel_code_selector s = elim (s.gdt_once) [
  | none ↦ panic
  | some holder ↦ done holder.selectors.kernel_code
]
