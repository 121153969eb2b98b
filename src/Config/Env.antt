-- ===== src/Config/Env.antt =====
-- crates/config/src/types/env.rs
use mill.Prelude.{String, List}

pub data EnvPart : Type 0 where
  literal : String → EnvPart
  service_address : String → EnvPart
  secret : String → EnvPart

pub data EnvValue : Type 0 where
  literal : String → EnvValue
  interpolated : List EnvPart → EnvValue
