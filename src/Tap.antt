-- ===== src/Tap.antt =====
-- pkg/tapmanager/fdserver.go: the server that hands out the file descriptors of tap devices.
pub mod Header
pub mod RoundTrip
pub mod Source
pub mod Server
pub mod Table
pub mod Client
pub mod Ending
pub mod Serving
pub mod Answers
pub mod Effects
pub mod Requests
pub mod Fitting
pub mod Calls
pub mod Sessions
