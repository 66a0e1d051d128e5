-- ===== src/Glib.antt =====
-- GLib.
mod SinglyLinked
mod Balanced
mod Model
pub use SinglyLinked.*
pub use Balanced.*
pub use Model.*
