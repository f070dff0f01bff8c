-- ===== src/Notion.antt =====
-- tools/notion_rows.py: a row of a Notion database, created or changed.
pub mod Segments
pub mod Values
pub mod Convert
pub mod Build
pub mod Http
pub mod Rows
