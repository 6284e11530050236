-- ===== src/Protocol/RoundTrip.antt =====
-- What `create_serialized` writes and the readers of src/protocol/message.cpp read back.
pub mod Users
pub mod Statics
pub mod Requests
pub mod Commands
pub mod Accepted
pub mod Views
pub mod Results
pub mod Replays
