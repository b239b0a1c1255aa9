-- ===== src/Ctests.antt =====
-- cheri-c-tests: test cases of the C compiler and library, over what they test as a parameter.
pub mod Copies
pub mod Math
pub mod Cursor
pub mod Malloc
pub mod Memcpy
pub mod Memmove
pub mod Memory
pub mod Qsort
pub mod Tests
