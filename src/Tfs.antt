-- ===== src/Tfs.antt =====
-- src/tfs.c: the file system tree, its paths, its nodes and what its operations keep.
pub mod Path
pub mod State
pub mod Change
pub mod Valid
pub mod Grow
pub mod Walk
pub mod Create
pub mod Existing
pub mod Resolve
pub mod Slash
pub mod Write
pub mod Contents
pub mod Free
pub mod Unlink
pub mod Remove
pub mod Tar
pub mod Unpack
