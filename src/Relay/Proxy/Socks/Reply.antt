-- ===== src/Relay/Proxy/Socks/Reply.antt =====
-- relay/socks5proxy.go: a client that reads the reply finds the address and the port.
use tunnelmanager.Prelude.{
  ◌++◌, ◌-◌, ◌<◌, ◌>>=◌, ◌∙◌, ◌∷◌, ◌≡◌, ◌⊎◌, Action, Bytes, Option, Option-cases, [], ap,
  append_assoc, arith, drop-append_left, get_or, inl, inr, length, length-append, length-drop, none,
  ok, pure, refl, some, subst, suc, sym, take-append_left, ℕ,
}
use tunnelmanager.Relay.Conn.{write, Conn, write_ok}
use tunnelmanager.Relay.Socks5.{
  socks_atyp_ipv4, socks_atyp_ipv6, SocksError, need, read_addr, SocksTarget, socks_handshake,
}
use tunnelmanager.Relay.Proxy.Socks.{
  mapped_prefix, to4, to16, NetAddr, tcp_addr, other_addr, packed_addr, socks_reply, port_bytes,
  reply_success, relays, after_dial, socks_handle, answer_target,
}
use tunnelmanager.Relay.Socks5.Connect.{need-append}

-- What a packed address is: a type, as many bytes as that type has, and a port.
pub record Packed (raw : Bytes) : Type 0 where
  pub atyp : ℕ
  pub addr : Bytes
  pub port : Bytes
  pub parts : raw ≡ atyp ∷ (addr ++ port)
  pub two : length port ≡ 2
  pub sized :
      ((atyp ≡ socks_atyp_ipv4) × (length addr ≡ 4))
      ⊎ ((atyp ≡ socks_atyp_ipv6) × (length addr ≡ 16))

to4-length : (ip ip4 : Bytes) → to4 ip ≡ some ip4 → length ip4 ≡ 4
unfolding to4
to4-length ip ip4 h = ground (arith, length-drop 12 ip)

to16-length : (ip ip16 : Bytes) → to16 ip ≡ some ip16 → length ip16 ≡ 16
unfolding to16
to16-length ip ip16 h = ground (arith, length-append mapped_prefix ip)

packed_addr-Packed : (addr : NetAddr) → Packed (packed_addr addr)
unfolding packed_addr
packed_addr-Packed other_addr = record {
  atyp = socks_atyp_ipv4;
  addr = 0 ∷ 0 ∷ 0 ∷ 0 ∷ [];
  port = 0 ∷ 0 ∷ [];
  parts = refl;
  two = refl;
  sized = inl (refl, refl);
}
packed_addr-Packed (tcp_addr ip port) = elim (Option-cases (to4 ip)) [
  | inr (ip4, e) ↦
      rw (e, packed_addr)
        (record {
          atyp = socks_atyp_ipv4;
          addr = ip4;
          port = port_bytes port;
          parts = refl;
          two = refl;
          sized = inl (refl, to4-length ip ip4 e);
        })
  | inl e ↦ rw (e, packed_addr) (by_six (Option-cases (to16 ip)))
]
  where
    by_six :
        (to16 ip ≡ none) ⊎ ((ip16 : Bytes) × (to16 ip ≡ some ip16))
        → Packed (elim (to16 ip) [
          | none ↦ socks_atyp_ipv4 ∷ 0 ∷ 0 ∷ 0 ∷ 0 ∷ port_bytes port
          | some ip16 ↦ socks_atyp_ipv6 ∷ (ip16 ++ port_bytes port)
        ])
    by_six (inl e) = rw e (record {
      atyp = socks_atyp_ipv4;
      addr = 0 ∷ 0 ∷ 0 ∷ 0 ∷ [];
      port = port_bytes port;
      parts = refl;
      two = refl;
      sized = inl (refl, refl);
    })
    by_six (inr (ip16, e)) = rw e (record {
      atyp = socks_atyp_ipv6;
      addr = ip16;
      port = port_bytes port;
      parts = refl;
      two = refl;
      sized = inr (refl, to16-length ip ip16 e);
    })

reply_parts :
    (atyp : ℕ) (addr port : Bytes) (c : Conn)
    → length port ≡ 2
    → reply_success (atyp ∷ (addr ++ port)) c ≡ write (5 ∷ 0 ∷ 0 ∷ atyp ∷ (addr ++ port)) c
unfolding reply_success socks_reply
reply_parts atyp addr port c h =
    let n : suc (length (addr ++ port)) - 2 - 1 ≡ length addr =
      omega (arith, length-append addr port) in
    let m : suc (length (addr ++ port)) - 2 ≡ suc (length addr) =
      omega (arith, length-append addr port) in
    rw (reply_success, socks_reply, n, m, take-append_left addr port, drop-append_left addr port)

reply_success_lem :
    (raw : Bytes) (c : Conn) → Packed raw → reply_success raw c ≡ write (5 ∷ 0 ∷ 0 ∷ raw) c
reply_success_lem raw c v =
    subst (λ r. reply_success r c ≡ write (5 ∷ 0 ∷ 0 ∷ r) c) (sym v.parts)
      (reply_parts v.atyp v.addr v.port c v.two)

-- How a client reads the reply: the bytes of the address, with its type and the port.
unfoldable pub read_reply : (Bytes → Bytes) → Action Conn SocksError Bytes
read_reply ip_string = do
  header ← need 4
  found ← read_addr ip_string (get_or header 3 0)
  port ← need 2
  pure (found.0 ++ port)

read_addr_ip :
    (ip_string : Bytes → Bytes) (atyp : ℕ) (addr rest : Bytes) (c : Conn)
    → ((atyp ≡ socks_atyp_ipv4) × (length addr ≡ 4))
      ⊎ ((atyp ≡ socks_atyp_ipv6) × (length addr ≡ 16))
    → c.input ≡ addr ++ rest
    → read_addr ip_string atyp c ≡ (ok (atyp ∷ addr, ip_string addr), record c { input = rest })
unfolding read_addr
read_addr_ip ip_string atyp addr rest c (inl (e, n)) h =
    ground (arith, need-append 4 c addr rest (sym n) h)
read_addr_ip ip_string atyp addr rest c (inr (e, n)) h =
    ground (arith, need-append 16 c addr rest (sym n) h)

read_reply_parts :
    (ip_string : Bytes → Bytes) (atyp : ℕ) (addr port rest : Bytes) (c : Conn)
    → length port ≡ 2
    → ((atyp ≡ socks_atyp_ipv4) × (length addr ≡ 4))
      ⊎ ((atyp ≡ socks_atyp_ipv6) × (length addr ≡ 16))
    → c.input ≡ 5 ∷ 0 ∷ 0 ∷ atyp ∷ (addr ++ (port ++ rest))
    → read_reply ip_string c ≡ (ok (atyp ∷ (addr ++ port)), record c { input = rest })
unfolding read_reply
read_reply_parts ip_string atyp addr port rest c two sized h = ground (
  arith,
  need-append 4 c (5 ∷ 0 ∷ 0 ∷ atyp ∷ []) (addr ++ (port ++ rest)) refl h,
  read_addr_ip ip_string atyp addr (port ++ rest) (record c { input = addr ++ (port ++ rest) })
      sized refl,
  need-append 2 (record c { input = port ++ rest }) port rest (sym two) refl,
)

read_reply-Packed :
    (ip_string : Bytes → Bytes) (raw rest : Bytes) (c : Conn)
    → Packed raw
    → c.input ≡ 5 ∷ 0 ∷ 0 ∷ (raw ++ rest)
    → read_reply ip_string c ≡ (ok raw, record c { input = rest })
read_reply-Packed ip_string raw rest c v h =
    let e : raw ++ rest ≡ v.atyp ∷ (v.addr ++ (v.port ++ rest)) =
      rw (v.parts, append_assoc v.addr v.port rest) in
    subst (λ r. read_reply ip_string c ≡ (ok r, record c { input = rest })) (sym v.parts)
      (read_reply_parts ip_string v.atyp v.addr v.port rest c v.two v.sized
        (h ∙ ap (λ xs. 5 ∷ 0 ∷ 0 ∷ xs) e))

after_dial-some :
    (local : NetAddr) (c : Conn)
    → 0 < c.writes
    → after_dial (some local) c ≡ (
      relays,
      record c { output = c.output ++ (5 ∷ 0 ∷ 0 ∷ packed_addr local); writes = c.writes - 1 },
    )
unfolding after_dial
after_dial-some local c w = rw (
  after_dial,
  reply_success_lem (packed_addr local) c (packed_addr-Packed local),
  write_ok c (5 ∷ 0 ∷ 0 ∷ packed_addr local) w,
)

-- After a successful handshake whose target could be dialled, on a connection that takes one more
-- write, handle sends one success reply and comes to Relay; a reader that takes three bytes, an
-- address type and what the type announces gets exactly the packed local address from that reply,
-- whatever follows it.
pub socks_handle-read_reply :
    (ip_string : Bytes → Bytes) (dialler : Bytes → Option NetAddr) (user pass rest : Bytes)
    (c c' client : Conn) (target : SocksTarget) (local : NetAddr)
    → socks_handshake ip_string user pass c ≡ (ok target, c')
    → dialler target.addr ≡ some local
    → 0 < c'.writes
    → client.input ≡ 5 ∷ 0 ∷ 0 ∷ (packed_addr local ++ rest)
    → (socks_handle ip_string dialler user pass c ≡ (
      relays,
      record c' { output = c'.output ++ (5 ∷ 0 ∷ 0 ∷ packed_addr local); writes = c'.writes - 1 },
    ))
      × (read_reply ip_string client ≡ (ok (packed_addr local), record client { input = rest }))
unfolding socks_handle answer_target
socks_handle-read_reply ip_string dialler user pass rest c c' client target local h e w input = (
  ap (answer_target dialler) h ∙ ap (λ o. after_dial o c') e ∙ after_dial-some local c' w,
  read_reply-Packed ip_string (packed_addr local) rest client (packed_addr-Packed local) input,
)
