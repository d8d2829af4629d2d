-- ===== src/Protocol.antt =====
-- protocol/frames.py: the binary frames, and the reader that cuts a byte stream into them.
pub mod Words
pub mod Frames
pub mod Reader
pub mod Codec
pub mod RoundTrip
pub mod Extend
pub mod Stream
pub mod Messages
pub mod MessageExamples
pub mod Examples
