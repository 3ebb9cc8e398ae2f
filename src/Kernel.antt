-- ===== src/Kernel.antt =====
-- The kernel's state and its commands: what every other module of the model is written over.
mod State
mod Command
mod Guarantee
mod Laws
unfoldable pub use State.*
unfoldable pub use Command.*
unfoldable pub use Guarantee.*
unfoldable pub use Laws.*
