-- ===== src/Plugins.antt =====
-- src/internal/PluginSearch.cpp and src/internal/PluginCache.hpp: where a plugin is looked for, and the
-- state that threads share when they load plugins. Places, Search and Cache are the model.
pub mod Places
pub mod Search
pub mod Cache
mod First
mod Owners
mod Moves
mod Steps
mod Loads
mod Progress
mod Waiting
mod Tests
