-- ===== src/Tests.antt =====
-- Runs of the model at concrete inputs, one module for each part.
mod Util
mod Strings
mod Phys
mod Gdt
mod Serial
mod Idt
mod Virt
mod Space
mod Stacktrace
mod Limine
mod Term
mod Acpi
mod Boot
