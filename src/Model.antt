-- ===== src/Model.antt =====
-- The data of the service: the tables of prisma/schema.prisma, and the handlers' monad over them.
mod Status
mod Catalog
mod Rows
mod Monad
mod Table
mod Query
pub use Status.*
pub use Catalog.*
pub use Rows.*
unfoldable pub use Monad.*
unfoldable pub use Table.*
unfoldable pub use Query.*
