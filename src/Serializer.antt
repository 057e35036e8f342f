-- ===== src/Serializer.antt =====
-- FSSerializer (libs/core/src/serialization/file_system/fs_serializer.cpp): the objects of a
-- repository as files. `Disk` has the files and their names, `Objects` what is stored for ever,
-- `Transient` what belongs to a workspace; the other modules prove.
pub mod Prefix
pub mod Disk
pub mod Objects
pub mod Transient
pub mod Stream
pub mod Steps
pub mod History
pub mod RoundTrip
pub mod Listing
