-- ===== src/Net/Peers.antt =====
-- The peers of a server of src/onion/net.c.
use checks.Prelude.{
  ℕ, ◌+◌, ◌*◌, ◌%◌, ◌^◌, ◌≤◌, ◌≡◌, refl, true, false, not, ◌||◌, none, some, leb, ◌==◌, arith,
}
use checks.Pool.{Pool, block, round_size_pow2, block_init, block_alloc}
use checks.Net.Init.{with_sock}
use checks.Net.{
  ServerNet, NetStatic, Conf, conf_is_valid, static_is_full, net_at, server_net_init, peer_net_init,
  accept_net,
}

full-accept_net :
    (net : ServerNet) (temp_sock : ℕ)
    → net.peer_capable ≤ net.peer_current + 1
    → accept_net net (some temp_sock) ≡ none
unfolding accept_net peer_net_init
full-accept_net net temp_sock full =
    let test : (not net.initialized || leb net.peer_capable (net.peer_current + 1)) ≡ true =
      ground arith in
    rw (test, accept_net, peer_net_init) refl

-- A server that is opened for one peer takes none: the first connection that it accepts leads to a `free` of
-- the structure on the stack, which C leaves open. Conditions: the configuration is valid and asks for one
-- peer, the count of servers is below the limit, the pool gives a block for the server, a pool of peers can
-- be made, and there is a socket.
pub server_net_init-accept_net :
    (s : NetStatic) (conf : Conf) (peer_size offset fd rounded : ℕ) (nets barracks : Pool)
    → conf_is_valid conf ≡ true
    → conf.peers_capable ≡ 1
    → static_is_full s ≡ false
    → block_alloc s.nets ≡ block offset nets
    → (peer_size == 0) ≡ false
    → round_size_pow2 ((conf.peers_capable * peer_size) % 2 ^ 64) ≡ some rounded
    → block_init ((conf.peers_capable * peer_size) % 2 ^ 64) peer_size ≡ some barracks
    → (s' : NetStatic) × (server_net_init s conf peer_size (some fd) ≡ net_at offset s')
      × ((temp_sock : ℕ) → accept_net (s'.servers offset) (some temp_sock) ≡ none)
server_net_init-accept_net s conf peer_size offset fd rounded nets barracks valid single room given
      some_bytes rounds peers =
    let (s', e, opened) =
      with_sock s conf peer_size offset nets valid room given rounded barracks some_bytes rounds
        peers fd in
    (
      s',
      e,
      λ temp_sock.
          full-accept_net (s'.servers offset) temp_sock
            (omega (arith, opened.limit, opened.nobody, single)),
    )
