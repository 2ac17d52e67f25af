-- ===== src/Go.antt =====
-- What the program uses of Go's standard library: strings, unicode, path/filepath and strconv.
pub mod Strings
pub mod Path
pub mod Strconv
pub mod Unicode
pub mod Map
