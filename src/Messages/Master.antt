-- ===== src/Messages/Master.antt =====
-- The state that the handlers of src/messages.c share.
use dpmaster_x.Prelude.{ℕ, List}
use dpmaster_x.Address.{Address}
use dpmaster_x.Clients.{Clients}
use dpmaster_x.Games.{Policy}
use dpmaster_x.Properties.{Registry}
use dpmaster_x.Servers.{Servers}
use dpmaster_x.Messages.Limiter.{Limits}

pub record Master : Type 0 where
  pub servers : Servers
  pub clients : Clients
  pub policy : Policy
  pub registry : Registry
  pub limits : Limits

-- A packet that is sent, and where it goes.
pub record Sent : Type 0 where
  pub to : Address
  pub bytes : List ℕ
