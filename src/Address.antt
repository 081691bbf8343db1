-- ===== src/Address.antt =====
-- Address formulas (crates/nemclass-model/src/address): text to tokens, tokens to an expression, and
-- the expression's value over the target's modules and memory.
pub mod Syntax
pub mod Tokenizer
pub mod Parser
pub mod Interpreter
pub mod Fuel
pub mod Grammar
pub mod Sound
pub mod Rounds
pub mod Complete
pub mod Written
pub mod ReadBack
pub mod RoundTrip
pub mod Totality
pub mod Value
pub mod Height
