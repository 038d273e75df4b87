-- ===== src/Common/Log.antt =====
-- service/log/ILogger.h: the levels, and a log as the list of the lines that were written.
use ekg.Prelude.{String}

pub data LogLevel : Type 0 where
  error info debug fatal : LogLevel

pub record LogLine : Type 0 where
  pub message : String
  pub level : LogLevel

abbrev pub line : String → LogLevel → LogLine
line message level = record { message = message; level = level }
