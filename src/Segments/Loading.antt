-- ===== src/Segments/Loading.antt =====
-- What the first call of `init` of kernel/src/arch/x86_64/gdt.rs loads.
use compute_kernel.Common.{
  ℕ, ◌+◌, ◌-◌, ◌≤◌, ◌⊎◌, ◌<◌, ◌^◌, ◌≡◌, refl, ◌∙◌, some, arith, length, get_elem?, Outcome, done,
  set, length-set, get_elem?-set_self, get_elem?-set_ne, lt→ltb,
}
use compute_kernel.Segments.{
  TaskState, Descriptor, kernel_code_segment, kernel_data_segment, user_data_segment,
  user_code_segment, tss_segment, Tables, Segments, GdtHolder, entries, unset, build_tss, build_gdt,
  init, ist_stack_size, double_fault_ist_index, gpf_ist_index,
}

-- A selector of the table picks the descriptor.
abbrev pub Picks :
    {Table Selector : Type 0} → Tables Table Selector → Table → Selector → Descriptor → Type 0
Picks tables t s d = tables.entry t (tables.index s) ≡ some d

-- Each of the five selectors picks the segment that it is named for.
pub record IsComplete {Table Selector : Type 0} (tables : Tables Table Selector) (tss : TaskState)
    (h : GdtHolder Table Selector) : Type 0 where
  pub kernel_code_picks : Picks tables h.gdt h.selectors.kernel_code kernel_code_segment
  pub kernel_data_picks : Picks tables h.gdt h.selectors.kernel_data kernel_data_segment
  pub user_data_picks : Picks tables h.gdt h.selectors.user_data user_data_segment
  pub user_code_picks : Picks tables h.gdt h.selectors.user_code user_code_segment
  pub tss_picks : Picks tables h.gdt h.selectors.tss (tss_segment tss)

-- `append` has put the descriptor into the next entries, and kept those before it.
abbrev Added :
    {Table Selector : Type 0}
    → Tables Table Selector
    → Descriptor
    → Table
    → Selector
    → Table
    → Type 0
Added tables d t s t' =
    (tables.append d t ≡ done (s, t'))
    × ((tables.index s ≡ tables.used t)
        × ((tables.used t' ≡ tables.used t + entries d)
            × ((tables.entry t' (tables.used t) ≡ some d)
                × ((i : ℕ) → i < tables.used t → tables.entry t' i ≡ tables.entry t i))))

module _ {Table Selector : Type 0} (tables : Tables Table Selector) where
  five_segments :
      (tss : TaskState) (s₁ s₂ s₃ s₄ s₅ : Selector) (t₁ t₂ t₃ t₄ t₅ : Table)
      → Added tables kernel_code_segment tables.new_table s₁ t₁
      → Added tables kernel_data_segment t₁ s₂ t₂
      → Added tables user_data_segment t₂ s₃ t₃
      → Added tables user_code_segment t₃ s₄ t₄
      → Added tables (tss_segment tss) t₄ s₅ t₅
      → (h : GdtHolder Table Selector) × ((build_gdt tables tss ≡ done h) × IsComplete tables tss h)
  unfolding build_gdt
  five_segments tss s₁ s₂ s₃ s₄ s₅ t₁ t₂ t₃ t₄ t₅ (e₁, (i₁, (u₁, (n₁, k₁))))
        (e₂, (i₂, (u₂, (n₂, k₂)))) (e₃, (i₃, (u₃, (n₃, k₃)))) (e₄, (i₄, (u₄, (n₄, k₄))))
        (e₅, (i₅, (u₅, (n₅, k₅)))) =
      let u₀ = tables.used tables.new_table in
      let h : GdtHolder Table Selector = record {
        gdt = t₅;
        selectors = record {
          kernel_code = s₁;
          kernel_data = s₂;
          user_code = s₄;
          user_data = s₃;
          tss = s₅;
        };
      } in
      (
        h,
        (
          rw (e₁, e₂, e₃, e₄, e₅) refl,
          record {
            kernel_code_picks = rw i₁ (
                k₅ u₀ (omega arith)
                ∙ (k₄ u₀ (omega arith) ∙ (k₃ u₀ (omega arith) ∙ (k₂ u₀ (omega arith) ∙ n₁))));
            kernel_data_picks = rw i₂ (
                k₅ (tables.used t₁) (omega arith)
                ∙ (k₄ (tables.used t₁) (omega arith) ∙ (k₃ (tables.used t₁) (omega arith) ∙ n₂)));
            user_data_picks =
                rw i₃
                  (k₅ (tables.used t₂) (omega arith) ∙ (k₄ (tables.used t₂) (omega arith) ∙ n₃));
            user_code_picks = rw i₄ (k₅ (tables.used t₃) (omega arith) ∙ n₄);
            tss_picks = rw i₅ n₅;
          },
        ),
      )

  build_gdt_lem :
      (tss : TaskState)
      → (h : GdtHolder Table Selector) × ((build_gdt tables tss ≡ done h) × IsComplete tables tss h)
  build_gdt_lem tss =
      let first = tables.used-new_table in
      let (s₁, (t₁, a₁)) =
        tables.append_fits kernel_code_segment tables.new_table (omega (arith, first)) in
      let (s₂, (t₂, a₂)) =
        tables.append_fits kernel_data_segment t₁ (omega (arith, first, a₁.1.1.0)) in
      let (s₃, (t₃, a₃)) =
        tables.append_fits user_data_segment t₂ (omega (arith, first, a₁.1.1.0, a₂.1.1.0)) in
      let (s₄, (t₄, a₄)) =
        tables.append_fits user_code_segment t₃
          (omega (arith, first, a₁.1.1.0, a₂.1.1.0, a₃.1.1.0)) in
      let (s₅, (t₅, a₅)) =
        tables.append_fits (tss_segment tss) t₄
          (omega (arith, first, a₁.1.1.0, a₂.1.1.0, a₃.1.1.0, a₄.1.1.0)) in
      five_segments tss s₁ s₂ s₃ s₄ s₅ t₁ t₂ t₃ t₄ t₅ a₁ a₂ a₃ a₄ a₅

-- Each of the two stacks' entries is the address behind the stack.
pub record HasStacks (double_fault_stack gpf_stack : ℕ) (tss : TaskState) : Type 0 where
  pub double_fault_top :
      get_elem? tss.interrupt_stack_table double_fault_ist_index
      ≡ some (double_fault_stack + ist_stack_size)
  pub gpf_top :
      get_elem? tss.interrupt_stack_table gpf_ist_index ≡ some (gpf_stack + ist_stack_size)

-- The registers hold the table and the kernel's selectors, and the tables are filled in.
pub record IsLoaded {Table Selector : Type 0} (tables : Tables Table Selector)
    (double_fault_stack gpf_stack : ℕ) (s : Segments Table Selector) : Type 0 where
  pub holder : GdtHolder Table Selector
  pub tss : TaskState
  pub kept : s.gdt_once ≡ some holder
  pub gdtr_set : s.gdtr ≡ some holder.gdt
  pub cs_set : s.cs ≡ some holder.selectors.kernel_code
  pub ds_set : s.ds ≡ some holder.selectors.kernel_data
  pub task_set : s.task ≡ some holder.selectors.tss
  pub complete : IsComplete tables tss holder
  pub stacks : HasStacks double_fault_stack gpf_stack tss

-- The addresses from one to a number of bytes behind it lie in one half of the canonical addresses:
-- the lower, or the upper, where the kernel is linked.
abbrev pub StaysCanonical : ℕ → ℕ → Type 0
StaysCanonical a n = (a + n < 2 ^ 47) ⊎ ((2 ^ 64 - 2 ^ 47 ≤ a) × (a + n < 2 ^ 64))

module _ (new_tss : TaskState) (virt_add : ℕ → ℕ → Outcome ℕ) (double_fault_stack gpf_stack : ℕ)
    (seven : length (new_tss.interrupt_stack_table) ≡ 7)
    (adds : (a n : ℕ) → StaysCanonical a n → virt_add a n ≡ done (a + n))
    (placed : StaysCanonical double_fault_stack ist_stack_size)
    (placed' : StaysCanonical gpf_stack ist_stack_size) where
  build_tss_lem :
      (tss : TaskState) × ((build_tss new_tss virt_add double_fault_stack gpf_stack ≡ done tss)
        × HasStacks double_fault_stack gpf_stack tss)
  unfolding build_tss
  build_tss_lem =
      let table = new_tss.interrupt_stack_table in
      let top = double_fault_stack + ist_stack_size in
      let filled = set table 0 top in
      let room : 0 < length table = omega (arith, seven) in
      let room' : 1 < length filled = omega (arith, seven, length-set table 0 top) in
      let tss : TaskState = record {
        interrupt_stack_table = set filled 1 (gpf_stack + ist_stack_size);
      } in
      (
        tss,
        (
          rw
              (
                adds double_fault_stack ist_stack_size placed,
                adds gpf_stack ist_stack_size placed',
                lt→ltb 0 (length table) room,
                lt→ltb 1 (length filled) room',
              )
              refl,
          record {
            double_fault_top =
                get_elem?-set_ne filled {i = 1} {j = 0} (gpf_stack + ist_stack_size) (omega arith)
                ∙ get_elem?-set_self table 0 top room;
            gpf_top = get_elem?-set_self filled 1 (gpf_stack + ist_stack_size) room';
          },
        ),
      )

  -- With both stacks in one half of the canonical addresses, where the sum of an address and a number
  -- is that of the numbers, and seven interrupt stacks in a task state, the first call of `init` does
  -- not panic. It loads a table in which the selectors in CS, DS and
  -- the task register pick the kernel's code segment, its data segment and the task state, and the
  -- selectors kept for user code and data theirs; in the task state, the entries of the two fault
  -- handlers are the addresses behind their stacks.
  pub init-IsLoaded :
      {Table Selector : Type 0} (tables : Tables Table Selector)
      → (s : Segments Table Selector) × ((init tables
              (build_tss new_tss virt_add double_fault_stack gpf_stack)
              unset
            ≡ done s)
          × IsLoaded tables double_fault_stack gpf_stack s)
  unfolding init
  init-IsLoaded {Table} {Selector} tables =
      let (made, (e, stacks)) = build_tss_lem in
      let (h, (e', complete)) = build_gdt_lem tables made in
      let s : Segments Table Selector = record {
        tss_once = some made;
        gdt_once = some h;
        gdtr = some h.gdt;
        cs = some h.selectors.kernel_code;
        ds = some h.selectors.kernel_data;
        task = some h.selectors.tss;
      } in
      (
        s,
        (
          rw (e, e') refl,
          record {
            holder = h;
            tss = made;
            kept = refl;
            gdtr_set = refl;
            cs_set = refl;
            ds_set = refl;
            task_set = refl;
            complete = complete;
            stacks = stacks;
          },
        ),
      )
