-- ===== src/Install.antt =====
-- src/bin/installer.rs and src/bin/uninstaller.rs: the tools that install the service and remove it.
pub mod System
pub mod Options
pub mod Program
pub mod Uninstaller
pub mod Frames
pub mod Names
pub mod Untouched
pub mod Copies
pub mod Safe
pub mod Stages
pub mod Outcome
pub mod Removal
pub mod Uninstalls
pub mod Roundtrip
pub mod Made
pub mod Overwritten
pub mod Arguments
pub mod Programs
mod Examples
