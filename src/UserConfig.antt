-- ===== src/UserConfig.antt =====
-- pkg/userconfig/store.go: the files of a user's custom configuration.
pub mod Place
pub mod Key
pub mod Store
pub mod Tests
