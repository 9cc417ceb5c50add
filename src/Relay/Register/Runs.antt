-- ===== src/Relay/Register/Runs.antt =====
-- One registered tunnel in the format of relay/ctrlconn.go.
use tunnelmanager.Prelude.{◌++◌, ◌∷◌, ◌≡◌, All, Bytes, IsU16, [], arith, ok, refl}
use tunnelmanager.Relay.Register.{
  RemoteTunnel, pack_tunnels, cut, unpack_entry, unpack_loop, unpack_tunnels,
}
use tunnelmanager.Relay.Register.RoundTrip.{Fits}
use tunnelmanager.Relay.Register.Sound.{unpack_tunnels_sound}

abbrev web : RemoteTunnel
web = record { remote_port = 8080; bind_addr = []; target_addr = 97 ∷ 58 ∷ 49 ∷ [] }

abbrev packed : Bytes
packed = 0 ∷ 1 ∷ 31 ∷ 144 ∷ 0 ∷ 0 ∷ 0 ∷ 3 ∷ 97 ∷ 58 ∷ 49 ∷ []

unpack_packed : unpack_tunnels packed ≡ ok (web ∷ [])
unfolding unpack_tunnels unpack_loop unpack_entry cut
unpack_packed = refl

unpack_tunnels_sound_example :
    (rest : Bytes) × (packed ≡ pack_tunnels (web ∷ []) ++ rest) × All Fits (web ∷ []) × IsU16 1
unpack_tunnels_sound_example = unpack_tunnels_sound packed (web ∷ []) (ground arith) unpack_packed
