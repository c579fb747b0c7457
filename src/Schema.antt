-- ===== src/Schema.antt =====
-- The schema of the database: alembic/versions/001_initial_schema.py and models/*.py.
pub mod Defs
pub mod Migration
pub mod Declared
pub mod Beside
pub mod Upgrade
pub mod Agree
