-- ===== src/Store.antt =====
-- The database that app/repositories works on: the rows of app/models, and the session with its
-- transaction, as a monad of state and exceptions.
pub mod Rows
pub mod Sizes
pub mod Session
unfoldable pub use Rows.*
unfoldable pub use Sizes.*
unfoldable pub use Session.*
