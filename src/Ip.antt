-- ===== src/Ip.antt =====
-- The module ipaddress, as the source uses it: a parameter. `none` is a ValueError.
use honeycow.Prelude.{Bool, Option, Text}
use honeycow.SourceExemptions.{Address, Network}

pub record IpAddress : Type 0 where
  pub ip_address : Text → Option Address
  pub ip_network : Text → Option Network
  pub is_private : Address → Bool
  pub is_loopback : Address → Bool
  pub is_link_local : Address → Bool
