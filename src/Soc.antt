-- ===== src/Soc.antt =====
-- The state of the models under src/HW_models, and what they take from outside.
mod Pins
mod Routing
mod Phy
mod Air
mod Crypt
mod State
pub mod Env
pub use Pins.*
pub use Routing.*
pub use Phy.*
pub use Air.*
pub use Crypt.*
pub use State.*
