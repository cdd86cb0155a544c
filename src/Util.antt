-- ===== src/Util.antt =====
-- lib/libstuff/util: the string and vector helpers that the programs share.
pub mod Strcasestr
pub mod Tokens
pub mod Lists
pub mod Strlcat
pub mod Number
pub mod Vector
pub mod Unquote
pub mod Unmask
