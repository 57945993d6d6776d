-- ===== src/Store.antt =====
-- internal/store: the rows, and the repositories as actions on the tables. GORM and the SQL engine
-- are not modelled: a query that the driver carries out does to the list of a table's rows what its
-- SQL says, and which queries the driver fails is a schedule that the environment chooses.
mod Table
pub mod Models
pub mod Exec
pub mod Counts
pub mod Repos
unfoldable pub use Table.*
