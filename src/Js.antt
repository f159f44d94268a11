-- ===== src/Js.antt =====
-- JavaScript values that the SDK's sources compute with, modelled from the language: texts as lists
-- of UTF-16 code units, with the string methods the sources call; byte lengths in UTF-8.
pub mod Text
pub mod Utf8
pub mod Uri
pub mod Json
pub mod Date
pub mod Trim
