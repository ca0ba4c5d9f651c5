-- ===== src/LinkedList.antt =====
-- linkedlist/linkedlist_platform.c: a character device over a ring of ten blocks of five bytes.
pub mod Device
pub mod Ring
pub mod Contents
pub mod Start
pub mod Echo
mod Tests
