-- ===== src/Adjudication.antt =====
-- internal/platform/adjudication.go: `Server.adjudicate` over the rows of one challenge version.
-- A transaction is a function from the rows to new rows; an error leaves the old rows.
mod Rows
mod Judge
mod Write
mod Run
pub mod Steps
pub mod Order
pub mod Claims
pub mod Crossed
mod Verdict
pub mod Milestones
pub mod Achieved
pub mod Best
mod Record
pub mod Books
pub mod Ends
unfoldable pub use Rows.*
unfoldable pub use Judge.*
unfoldable pub use Write.*
unfoldable pub use Run.*
