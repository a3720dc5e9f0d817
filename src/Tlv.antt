-- ===== src/Tlv.antt =====
-- The tag-length-value format (tlv.cpp, tlv.hpp).
pub mod Tags
pub mod Writer
pub mod Ints
pub mod SignedInts
pub mod Reader
pub mod Element
pub mod Document
pub mod Writing
pub mod WriteRefines
pub mod Reading
pub mod Read
pub mod Steps
pub mod Containers
pub mod ReadBack
pub mod Ready
pub mod RoundTrip
pub mod DataTag
pub mod NextIs
pub mod SeekNext
mod Runs
