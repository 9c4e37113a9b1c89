-- ===== src/Python.antt =====
-- What the program uses of Python: values as JSON has them, dictionaries in insertion order, and
-- methods that write an object and may raise.
pub mod Value
pub mod Dict
pub mod Result
pub mod Action
pub mod Hex
pub mod Number
