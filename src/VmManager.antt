-- ===== src/VmManager.antt =====
-- crates/vm-manager: the disposable disks of the virtual machine.
pub mod Overlay
mod Tests
