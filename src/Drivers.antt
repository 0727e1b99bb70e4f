-- ===== src/Drivers.antt =====
-- Device drivers: kernel/src/drivers/.
pub mod Keyboard
pub mod Vga
pub mod Pci
pub mod Binding
pub mod Framebuffer
pub mod Serial
pub mod Acpi
mod Tests
