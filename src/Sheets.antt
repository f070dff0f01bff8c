-- ===== src/Sheets.antt =====
-- tools/google_sheets.py: the columns and the rows of a worksheet.
pub mod Columns
pub mod Rows
mod Tests
