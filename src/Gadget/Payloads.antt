-- ===== src/Gadget/Payloads.antt =====
-- cmd/ipod/main.go: the payloads of all lingoes that the program imports, in one registry.
use ipod.Base.{ℕ, Bool, false, Option, none, some, List, [], ◌∷◌, refl, Result, ok, ◌>>=◌}
use ipod.Lingo.Ids.{
  lingo_general_id, lingo_simple_remote_id, lingo_display_remote_id, lingo_ext_remote_id,
  lingo_digital_audio_id,
}
use ipod.Lingo.Registry.{Registry, no_types, register_lingos}
use ipod.Command.{Payloads}
use ipod.Audio.Payloads.{AudioPayload, audio_lingos, audio_payloads}
use ipod.DispRemote.Payloads.{DispPayload}
use ipod.DispRemote.Structs.{lingos}
use ipod.DispRemote.Codec.{disp_payloads}
use ipod.ExtRemote.Payloads.{ExtPayload}
use ipod.ExtRemote.Values.{ext_lingos}
use ipod.ExtRemote.Codec.{ext_payloads}
use ipod.General.Payloads.{GeneralPayload}
use ipod.General.Types.{general_lingos}
use ipod.General.Codec.{general_payloads}
use ipod.General.Device.{Part}
use ipod.SimpleRemote.Payloads.{SimplePayload, simple_lingos, simple_payloads}

pub data AnyPayload : Type 0 where
  general : GeneralPayload → AnyPayload
  simple : SimplePayload → AnyPayload
  disp : DispPayload → AnyPayload
  ext : ExtPayload → AnyPayload
  audio : AudioPayload → AnyPayload

abbrev pub among :
    {Q : Type 0} → (Q → AnyPayload) → List (Result ℕ × Q) → List (Result ℕ × AnyPayload)
among put [] = []
among put ((tag, q) ∷ more) = (tag, put q) ∷ among put more

unfoldable pub any_type : AnyPayload → AnyPayload
unfolding general_payloads simple_payloads disp_payloads ext_payloads audio_payloads
any_type (general p) = general (general_payloads.type_of p)
any_type (simple p) = simple (simple_payloads.type_of p)
any_type (disp p) = disp (disp_payloads.type_of p)
any_type (ext p) = ext (ext_payloads.type_of p)
any_type (audio p) = audio (audio_payloads.type_of p)

-- Types of different packages differ.
unfoldable pub any_same : AnyPayload → AnyPayload → Bool
unfolding general_payloads simple_payloads disp_payloads ext_payloads audio_payloads
any_same (general a) (general b) = general_payloads.same a b
any_same (simple a) (simple b) = simple_payloads.same a b
any_same (disp a) (disp b) = disp_payloads.same a b
any_same (ext a) (ext b) = ext_payloads.same a b
any_same (audio a) (audio b) = audio_payloads.same a b
any_same _ _ = false

unfoldable pub any_size : AnyPayload → Option ℕ
unfolding general_payloads simple_payloads disp_payloads ext_payloads audio_payloads
any_size (general p) = general_payloads.size p
any_size (simple p) = simple_payloads.size p
any_size (disp p) = disp_payloads.size p
any_size (ext p) = ext_payloads.size p
any_size (audio p) = audio_payloads.size p

unfoldable pub any_marshal : AnyPayload → Result (List ℕ)
unfolding general_payloads simple_payloads disp_payloads ext_payloads audio_payloads
any_marshal (general p) = general_payloads.marshal p
any_marshal (simple p) = simple_payloads.marshal p
any_marshal (disp p) = disp_payloads.marshal p
any_marshal (ext p) = ext_payloads.marshal p
any_marshal (audio p) = audio_payloads.marshal p

unfoldable pub any_unmarshal : AnyPayload → List ℕ → Result AnyPayload
unfolding general_payloads simple_payloads disp_payloads ext_payloads audio_payloads
any_unmarshal (general p) bytes = general_payloads.unmarshal p bytes >>= λ q. ok (general q)
any_unmarshal (simple p) bytes = simple_payloads.unmarshal p bytes >>= λ q. ok (simple q)
any_unmarshal (disp p) bytes = disp_payloads.unmarshal p bytes >>= λ q. ok (disp q)
any_unmarshal (ext p) bytes = ext_payloads.unmarshal p bytes >>= λ q. ok (ext q)
any_unmarshal (audio p) bytes = audio_payloads.unmarshal p bytes >>= λ q. ok (audio q)

-- The packages' `init` functions, in the order of their paths.
unfoldable pub any_registry : Registry AnyPayload
unfolding register_lingos
any_registry =
    let r1 = (register_lingos lingo_digital_audio_id (among audio audio_lingos) no_types).0 in
    let r2 = (register_lingos lingo_display_remote_id (among disp lingos) r1).0 in
    let r3 = (register_lingos lingo_ext_remote_id (among ext ext_lingos) r2).0 in
    let r4 = (register_lingos lingo_general_id (among general general_lingos) r3).0 in
    (register_lingos lingo_simple_remote_id (among simple simple_lingos) r4).0

unfoldable pub any_payloads : Payloads AnyPayload AnyPayload
unfolding any_type any_same any_size any_marshal any_unmarshal any_registry
any_payloads = record {
  type_of = any_type;
  same = any_same;
  size = any_size;
  marshal = any_marshal;
  unmarshal = any_unmarshal;
  registry = any_registry;
}

abbrev pub as_general : AnyPayload → Option GeneralPayload
as_general (general p) = some p
as_general _ = none

abbrev pub general_part : Part GeneralPayload AnyPayload
general_part = record { put = general; get = as_general; get-put = λ q. refl }

abbrev pub as_disp : AnyPayload → Option DispPayload
as_disp (disp p) = some p
as_disp _ = none

abbrev pub as_ext : AnyPayload → Option ExtPayload
as_ext (ext p) = some p
as_ext _ = none

abbrev pub as_audio : AnyPayload → Option AudioPayload
as_audio (audio p) = some p
as_audio _ = none
