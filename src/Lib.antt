-- ===== src/Lib.antt =====
-- Verification of ComputeKERNEL, a monolithic x86_64 kernel in Rust (the crate under kernel/).
--
-- The kernel keeps a table of processes, from which a round-robin scheduler chooses the current PID
-- at timer ticks and at exits; signals are bits of a mask in the table, delivered at ticks. System
-- calls act for the current process on that table, on a table of open pseudo files and on user
-- memory; they read keys from the keyboard driver's ring buffer and write to the serial port and to
-- the VGA text buffer. The VFS serves the same pseudo files through a trait. The network layer
-- parses and writes Ethernet, IPv4, TCP and UDP. The initramfs parses a cpio archive. At start-up
-- `kernel_main` sets up the serial port, the screen, the segments, the interrupt table and the PICs,
-- has the memory module map a heap with frames from the boot loader's memory map, enumerates the PCI
-- devices, makes the first processes and turns interrupts on: the timer then drives the scheduler and
-- the keyboard fills its buffer. The kernel shell reads lines from the keyboard and prints on the VGA
-- screen. The init program mounts file systems and starts shells.
--
-- Which file models which part:
--   * Process (kernel/src/process/mod.rs): `Kernel` is the statics NEXT_PID, PROCESS_TABLE, TICK and
--     CURRENT_PID; `init`, `fork`, `execve`, `exit_current` and `exit`, `wait_round` and (in
--     Process/Wait) `waitpid` are the functions of those names, each from state to result and
--     state. Process/Scheduler is kernel/src/process/scheduler.rs (`schedule`, `force_schedule`,
--     `tick`), Process/Signal kernel/src/process/signal.rs (`kill`, `dispatch_signals`).
--     Process/{Table, Pids, Kept, Ranges, Parents, Lifecycle, Reap, Lives, Delivery, RoundRobin,
--     Fairness} hold the proofs.
--   * Syscall (kernel/src/syscall/mod.rs): `System` joins the kernel, FD_TABLE, user memory and the
--     output; Syscall/Numbers has the call numbers, Syscall/Files `sys_open` and `sys_close`,
--     Syscall/Io `sys_read` and `sys_write`, Syscall/Dispatch the other handlers and `dispatch`;
--     Syscall/{Strings, Descriptors, Reading, Waiting} hold the proofs.
--   * Drivers/Keyboard and Drivers/Vga (kernel/src/drivers/keyboard.rs and vga.rs): the key ring
--     buffer and the text writer, with their proofs in Drivers/Keyboard/Queue and
--     Drivers/Vga/{Scroll, Cursor}.
--   * Drivers/Pci (kernel/src/drivers/pci.rs), with proofs in Drivers/Pci/{Address, Enumeration};
--     Drivers/Pci/Listing has its `init`;
--     Drivers/Binding, the driver stubs (kernel/src/drivers/ahci.rs, nvme.rs, audio/hda.rs,
--     usb/xhci.rs, network/e1000.rs, bluetooth/hci.rs), with Drivers/Binding/Exclusive;
--     Drivers/Serial (kernel/src/drivers/serial.rs); Drivers/Acpi (kernel/src/drivers/acpi_driver.rs),
--     with Drivers/Acpi/Mapping;
--     Drivers/Framebuffer (kernel/src/drivers/framebuffer.rs), with proofs in
--     Drivers/Framebuffer/{Pixels, Fits, Painting}.
--   * Memory (kernel/src/memory/): the frame allocator, `phys_from_virt`, `init_heap` and `init`;
--     Memory/Frames has the proofs on the frames, Memory/{Heap, Backing} those on the heap.
--   * Interrupts (kernel/src/arch/x86_64/interrupts.rs and idt.rs): the table, the handlers and the
--     PICs, with proofs in Interrupts/Vectors. Segments (kernel/src/arch/x86_64/gdt.rs): the task state
--     and the descriptor table, with proofs in Segments/Loading; Segments/ListTables is a table that
--     meets the interface.
--   * Boot (kernel/src/main.rs): `stages` is the list of the calls of `kernel_main`, `run_stage` what
--     each does, and `take_interrupt` an interrupt that comes in between;
--     Boot/{Stages, SetUp, Interrupted, Enabling, Starting} hold the proofs. Init (init/src/main.rs): the
--     actions of the init program.
--   * Shell (kernel/src/shell.rs): `read_line`, `execute` and the commands; Shell/Words splits a
--     line; the proofs are in Shell/{Editing, Bounds, Commands}, and in Shell/TypeAhead for the
--     editor over the keyboard's buffer.
--   * Net/{Ethernet, Ip, Tcp, Udp} (kernel/src/net/): the parsers, serialisers and the checksum;
--     Net/Ip/Checksum has the proofs on the checksum, Net/Wire the big-endian fields, Net/Sockets
--     the socket stubs.
--   * Fs (kernel/src/fs/vfs.rs) and Fs/{ProcFs, SysFs, DevFs, Ext4} (the files of those names):
--     the trait as a record and its implementations, with proofs in Fs/{Tree, Agree}.
--   * Fs/Initramfs (kernel/src/fs/initramfs.rs): `load` is `InitramFs::new`. Fs/Initramfs/Writer is
--     a writer of archives with its own padding, Fs/Initramfs/Hex reads their numbers, and the proofs are in
--     Fs/Initramfs/{Entries, RoundTrip, Reading, Lookup, Ending, Panics}.
--   * Common: tests on numbers, lists, bits, signed integers, UTF-8, decimals, and results of code
--     that may panic. The modules named Tests run the definitions on concrete inputs.
--
-- How state, errors and integers are modelled: a function that changes a static returns the new
-- state. An error is a value; a panic (a slice out of range, an underflow) is a value of its own. A
-- w-bit number is a natural number, and its wrap-around is written out where the code can reach it.
-- Whether the kernel is built with overflow checks is an argument of the handlers it matters to.
--
-- Bounds and fuel: `fold` of the checksum runs on fuel 3, since two rounds bring a u32 below 2 ^ 16
-- and the third sees that; `show_u64` writes at most 20 digits, the most that a u64 has; a scheduling
-- decision looks at each slot once, as its loop does. The parser of the initramfs has fuel for one
-- round more than the archive has bytes, and a round that goes on passes a header of 110 bytes. The
-- loops that wait for an event (a key, a child's exit) are given the list of events that come, and
-- say so when it ends.
--
-- Interleavings: an operation on the process table runs with interrupts off and is one step; `exit`
-- lets interrupts in before it switches, so it is two. No context is switched by the code: the
-- scheduler only moves the current PID. In the start-up, interrupts come in behind each stage, as many as
-- one likes; those that would come while a stage runs are taken behind it.
--
-- Parameters: the scancode decoder of the crate pc-keyboard, `from_bits_truncate` of the crate
-- bitflags (which is taken to keep the bits that a type declares), the PCI configuration space, the parser of the crate acpi, and of the crate x86_64 the start
-- of the frame of an address, the range of pages between two addresses and the sum of addresses
-- (taken to be that of the numbers within one half of the canonical addresses).
-- Interfaces with laws: the mapper of pages (`Mapping`), the range of pages (`IsPageRange`), the
-- descriptor table (`Tables`), the PICs of the crate pic8259 (`ChainedPics`) and the port of the crate
-- uart_16550 (`Uart`, whose writes the start-up's theorems take not to fail); the modules named Tests
-- and Segments/ListTables have values that meet them. What the serial log prints is kept by the
-- start-up and by the PCI listing, and left out elsewhere. The heap does not run out of room.
--
-- Not modelled: `paging::init` of kernel/src/memory/paging.rs (it reads a register and makes the
-- mapper), the global allocator of the crate linked_list_allocator, the build script kernel/build.rs,
-- and the files that only list modules.
pub mod Common
pub mod Process
pub mod Net
pub mod Syscall
pub mod Drivers
pub mod Fs
pub mod Memory
pub mod Shell
pub mod Interrupts
pub mod Segments
pub mod Boot
pub mod Init
