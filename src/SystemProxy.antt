-- ===== src/SystemProxy.antt =====
-- The environment variables of the system proxy (mihomotui/system_proxy.go): the marked block in the
-- shells' files, as functions on the content of a file.
pub mod Lines
pub mod Strip
pub mod StripLaws
pub mod Insert
