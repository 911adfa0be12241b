-- ===== src/Sqlite.antt =====
-- sqlite/store.go: the store of traces in a SQLite table, its schema, its cleanup, its queries, filters and
-- aggregates, and the tables of rules. The database is a parameter, the interface of `Sqlite.Table`,
-- with the laws of the SQL statements that the store executes.
pub mod Row
pub mod Table
pub mod Columns
pub mod Store
pub mod Promoted
pub mod Saved
pub mod Cleanup
pub mod Unique
pub mod Deleted
pub mod Outlived
pub mod Expired
pub mod Invariant
pub mod Zoned
pub mod Query
pub mod Like
pub mod Placeholders
pub mod Listing
pub mod Listed
pub mod RuleTable
pub mod Rules
pub mod RuleViews
pub mod RuleSpec
pub mod RuleEngines
pub mod RuleMemory
pub mod Aggregate
pub mod Schema
pub mod Migrated
pub mod Ensured
pub mod WrittenColumns
pub mod Startup
pub mod Select
pub mod Issued
pub mod Aggregated
pub mod Filters
pub mod TagPairs
pub mod TagSets
pub mod Offered
pub mod Unreported
pub mod Memory
mod Examples
mod CleanupExamples
mod QueryExamples
mod FilterExamples
mod SchemaExamples
mod AggregateExamples
mod RuleExamples
