-- ===== src/Config/Tests.antt =====
-- The check of KanchoNet/Core/EngineConfig.cpp on the default settings.
use kancho_net.Common.{◌≡◌, ◌↔◌, refl, true, false}
use kancho_net.Config.{defaults, validate, InRange, validate_iff}

validate-defaults : validate defaults ≡ true
unfolding validate
validate-defaults = refl

low_port : validate (record defaults { port = 1023 }) ≡ false
unfolding validate
low_port = refl

validate_iff_example : (validate defaults ≡ true) ↔ InRange defaults
validate_iff_example = validate_iff defaults
