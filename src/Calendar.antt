-- ===== src/Calendar.antt =====
-- time.Time, as the program uses it: nanoseconds since 0001-01-01 00:00 UTC, the zero value of Go's
-- type, with the civil dates of the proleptic Gregorian calendar.
mod Civil
mod Text
unfoldable pub use Civil.*
unfoldable pub use Text.*
