-- ===== src/Compiler.antt =====
-- compiler/sql_compiler.py: from a query of the DSL to the text of one SQL query. `Fault` is how it
-- fails, `Dates` its windows of time, `Quote` its literals and identifiers, `Fields` its expressions,
-- `From` the tables, `Shapes` the four forms of query, `Sql` the entry.
pub mod Fault
pub mod Dates
pub mod Quote
pub mod Fields
pub mod From
pub mod Plain
pub mod TopN
pub mod FillGaps
pub mod Comparison
pub mod Sql
