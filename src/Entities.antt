-- ===== src/Entities.antt =====
-- The documents that the service keeps: domain/model/entities.
mod Profile
mod Order
mod Finance
mod Trigger
pub use Profile.*
pub use Order.*
pub use Finance.*
pub use Trigger.*
