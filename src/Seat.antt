-- ===== src/Seat.antt =====
-- src/seat: the text screens of a PC seat and its hardware cursor.
mod Tests
pub mod Screen
pub mod Console
pub mod Cursor
