-- ===== src/Tags.antt =====
-- request_tags.go: the compiled binding metadata of a request struct.
pub mod ContentTypes
pub mod Compile
pub mod Shared
pub mod Sliced
pub mod Indexed
pub mod Flags
pub mod Shape
pub mod Judged
pub mod Checked
pub mod Streams
pub mod Compiled
pub mod Paths
pub mod Cached
use go_httpserver.Base.{ℕ, Bool, Option, String, List}

-- The request sources, one for each bit of `flags`.
pub data Source : Type 0 where
  header cookie query url form json multipart body : Source

-- requestTags: `flags` has a Boolean for each bit, `field_index` the eight index paths, of which nil
-- is `none`.
pub record RequestTags : Type 0 where
  pub flags : Source → Bool
  pub field_index : Source → Option (List ℕ)
  pub body_content_types : List String
