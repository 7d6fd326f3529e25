-- ===== src/Media.antt =====
-- modules/media: the parts of the media path that are plain functions, and the bridge of two legs.
pub mod G711
pub mod Bridge
mod Examples
