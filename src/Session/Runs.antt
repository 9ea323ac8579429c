-- ===== src/Session/Runs.antt =====
-- cmd/ipod/main.go: two commands of the display remote, sent and read.
use ipod.Base.{false, some}
use ipod.Command.{Command, CommandSerde, known}
use ipod.DispRemote.Payloads.{DispPayload, ret_num_eq_profiles}

abbrev fresh : CommandSerde
fresh = record { trx_enabled = false }

abbrev profiles : Command DispPayload
profiles = record {
  id = 0x030005;
  transaction = some 7;
  payload = some (known (ret_num_eq_profiles 1));
}
