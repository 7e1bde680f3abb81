-- ===== src/Opt.antt =====
-- opt.c and opt.h: words of text with quotes, and the options of a command line.
pub mod Quote
pub mod Words
pub mod Number
pub mod Texts
pub mod Options
pub mod Iter
mod Tests
