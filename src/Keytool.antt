-- ===== src/Keytool.antt =====
-- pkg/keytool/keytool.go.
mod Library
mod Key
mod Methods
pub mod Certificate
pub mod Identity
unfoldable pub use Library.*
unfoldable pub use Key.*
unfoldable pub use Methods.*
