-- ===== src/Model.antt =====
-- The rows of the SQLite database (app/models/), the database as one value, and the settings.
-- Times are whole numbers of seconds of naive UTC; nullable columns are options.
mod Account
mod Media
mod Upload
mod Database
mod Config
pub use Account.*
pub use Media.*
pub use Upload.*
pub use Database.*
pub use Config.*
