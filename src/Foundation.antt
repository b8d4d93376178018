-- ===== src/Foundation.antt =====
-- src/foundation: what the rest of the program is built on.
pub mod Util
pub mod Hashtable
pub mod Strbuf
pub mod Plist
pub mod Json
pub mod Jsonrpc
