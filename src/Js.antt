-- ===== src/Js.antt =====
-- What the clients use of the JavaScript library: strings, `Map` and `Set`.
pub mod Str
pub mod Trim
pub mod Number
pub mod Set
pub mod Map
pub mod Json
pub mod Sort
