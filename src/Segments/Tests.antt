-- ===== src/Segments/Tests.antt =====
-- The segments (kernel/src/arch/x86_64/gdt.rs) over a table that is a list, and their theorem at it.
use compute_kernel.Common.{ℕ, inr, ◌≡◌, refl, arith, done, panic, replicate}
use compute_kernel.Segments.{TaskState, Segments, unset, build_tss, init, kernel_code_selector}
use compute_kernel.Segments.ListTables.{sum_of, sum_of_canonical, Entries, list_tables}
use compute_kernel.Segments.Loading.{IsLoaded, init-IsLoaded}

abbrev empty_tss : TaskState
empty_tss = record { interrupt_stack_table = replicate 7 0 }

init-IsLoaded_example :
    (s : Segments Entries ℕ) × ((init list_tables
          (build_tss empty_tss sum_of 0xffffffff80200000 0xffffffff80300000)
          unset
        ≡ done s)
      × IsLoaded list_tables 0xffffffff80200000 0xffffffff80300000 s)
init-IsLoaded_example =
    init-IsLoaded empty_tss sum_of 0xffffffff80200000 0xffffffff80300000 refl sum_of_canonical
      (inr (omega arith)) (inr (omega arith)) list_tables

-- Before `init` there is no selector to give.
selector_too_early : kernel_code_selector {Table = Entries} {Selector = ℕ} unset ≡ panic
unfolding kernel_code_selector
selector_too_early = refl
