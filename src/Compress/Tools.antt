-- ===== src/Compress/Tools.antt =====
-- src/compression.rs: the provider metadata of the tools of a request, which is spliced into its text.
pub mod Normalize
pub mod Append
