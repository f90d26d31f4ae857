-- ===== src/Api.antt =====
-- The types of Kubernetes and of achilles-sdk-api that the program handles, the third-party code
-- and the API server that it calls, and the monad in which its handlers run.
mod Objects
mod Environment
mod Handlers
pub mod Effects
pub mod Answers
pub mod Histories
unfoldable pub use Objects.*
pub use Environment.*
unfoldable pub use Handlers.*
