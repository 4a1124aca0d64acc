-- ===== src/Host.antt =====
-- The host library: plugins, their registry, and the choice of a compressor.
pub mod Plugins
pub mod Order
pub mod Instance
pub mod Ownership
pub mod Registry
pub mod Compressor
pub mod Decompressor
pub mod Uploader
pub mod Downloader
pub mod Loader
pub mod Search
pub mod RoundTrip
pub mod Chosen
pub mod Transfers
pub mod Found
