-- ===== src/Command.antt =====
-- controller/command/CMDCommand.h and CMDCommand.cpp: the commands, their JSON form and the parser.
pub mod Json
pub mod Types
pub mod Parser
pub mod Serial
