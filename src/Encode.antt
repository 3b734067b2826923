-- ===== src/Encode.antt =====
-- The encoder of perl_mongo.c: from Perl values to a bson_t.
pub mod Keys
pub mod Circular
pub mod BigInt
pub mod Regex
pub mod Calendar
pub mod Leaves
pub mod Entries
pub mod Append
pub mod Document
