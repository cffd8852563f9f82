-- ===== src/Filter.antt =====
-- crates/bulwark-filter: rules, their indexes, the compiled engine and the list compiler.
pub mod Answered
pub mod Rule
pub mod External
pub mod Index
pub mod Scan
pub mod Token
pub mod Text
pub mod Engine
pub mod Compiler
pub mod Parser
pub mod Glob
mod Safe
mod Parts
pub mod Parsing
pub mod Lists
mod Pruning
mod Domain
mod Lookup
mod Covers
mod Tokens
mod Winner
mod Gather
mod Placing
mod Gathered
mod Hits
mod Plain
mod Meaning
mod Candidates
mod Origins
mod Best
mod Verdicts
pub mod Crates
mod Examples
pub mod ParserExamples
