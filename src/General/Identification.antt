-- ===== src/General/Identification.antt =====
-- lingo-general/handler.go: the identification of the other side.
use ipod.Command.{Payloads}
use ipod.General.Handler.{General}
