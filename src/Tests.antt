-- ===== src/Tests.antt =====
-- The theorems at concrete inputs: type stores, values, statements, functions and modules.
mod Samples
mod TypeTests
mod ValueTests
mod AstTests
mod ModuleTests
mod BuilderTests
mod ConstTests
mod SafeTests
