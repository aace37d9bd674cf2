-- ===== src/ConfigFile.antt =====
-- src/libs/config: the language of the configuration files.
pub mod Token
pub mod Lexer
pub mod Group
pub mod Parser
pub mod Settings
