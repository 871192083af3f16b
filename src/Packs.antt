-- ===== src/Packs.antt =====
-- server/bundles.py, server/packrename.py and worker/stoker_agent/bundle.py: the texts of a pack.
pub mod Text
pub mod Yaml
pub mod Rename
mod Examples
