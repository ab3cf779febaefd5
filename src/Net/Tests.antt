-- ===== src/Net/Tests.antt =====
-- Runs of the servers and peers of src/onion/net.c, and the theorems on them at an example.
use checks.Prelude.{ℕ, ◌*◌, ◌%◌, ◌^◌, ◌≡◌, refl, false, none, some, [], ◌∷◌}
use checks.Pool.{
  Pool, block, round_size_pow2, block_init, block_alloc, take_block, ffb, ffb_loop, scan_clear,
  set_bit, round_loop,
}
use checks.Bitmask.{
  with_bit, bit_of, bitmask_add, bitmask_init, scan_frames, scan_bits, inverted, set_bits,
}
use checks.Net.{Conf, NetStatic, net_at, server_net_init, accept_net}
use checks.Net.Peers.{server_net_init-accept_net}

abbrev two_servers : Pool
two_servers = record {
  current_size = 0;
  block_max = 2;
  block_size = 64;
  block_count = 0;
  block_free = 2;
  bitmap = 0 ∷ [];
  bitmask = record { mask = 0 ∷ []; size = 2; conv_size = 1; size_per_frame = 64 };
}

abbrev statics : NetStatic
statics = record {
  nets = two_servers;
  capable = 2;
  count = 0;
  servers = λ a. record {
    sock = none;
    peer_barracks = none;
    peer_current = 0;
    peer_capable = 0;
    initialized = false;
    peers = λ b. record { sock = 0; initialized = false };
  };
  freed = [];
}

abbrev conf : Conf
conf = record {
  peers_capable = 1;
  queue_capable = 4;
  port_conf = record { domain = 2; type = 1; port = 8080 };
}

-- The pool with its first block taken.
abbrev one_server : Pool
one_server = record two_servers {
  current_size = 64;
  block_count = 1;
  block_free = 1;
  bitmap = 1 ∷ [];
  bitmask = record { mask = 1 ∷ []; size = 2; conv_size = 1; size_per_frame = 64 };
}

first_block : block_alloc two_servers ≡ block 0 one_server
unfolding block_alloc take_block ffb ffb_loop scan_clear set_bit with_bit bit_of bitmask_add
    scan_frames scan_bits inverted set_bits checks.Bitmask.ffb
first_block = refl

abbrev one_peer : Pool
one_peer = record {
  current_size = 0;
  block_max = 1;
  block_size = 32;
  block_count = 0;
  block_free = 1;
  bitmap = 0 ∷ [];
  bitmask = record { mask = 0 ∷ []; size = 1; conv_size = 1; size_per_frame = 64 };
}

rounds_one : round_size_pow2 ((1 * 32) % 2 ^ 64) ≡ some 32
unfolding round_size_pow2 round_loop
rounds_one = refl

room_for_one : block_init ((1 * 32) % 2 ^ 64) 32 ≡ some one_peer
unfolding block_init round_loop bitmask_init
room_for_one = refl

server_net_init-accept_net_example :
    (s' : NetStatic) × (server_net_init statics conf 32 (some 7) ≡ net_at 0 s')
    × ((temp_sock : ℕ) → accept_net (s'.servers 0) (some temp_sock) ≡ none)
server_net_init-accept_net_example =
    server_net_init-accept_net statics conf 32 0 7 32 one_server one_peer refl refl refl first_block
      refl rounds_one room_for_one
