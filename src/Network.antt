-- ===== src/Network.antt =====
-- The client, the router and the service together: a request from the client to a handler and back.
pub mod Patterns
pub mod Router
pub mod Serving
pub mod Asked
pub mod Methods
pub mod Calls
pub mod Session
pub mod Reach
pub mod EndToEnd
pub mod Whole
pub mod Program
