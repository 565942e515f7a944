-- ===== src/Core.antt =====
-- The pure domain layer, crates/ktsense-core.
pub mod Budget
pub mod Pick
pub mod Filter
pub mod JavaText
pub mod TextSearch
pub mod SymbolSearch
pub mod Annotated
pub mod ByPath
pub mod References
pub mod TextRefs
pub mod Trace
pub mod Imports
pub mod Graph
pub mod Components
pub mod Implementors
pub mod Text
pub mod Layout
pub mod Tests
