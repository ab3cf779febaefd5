-- ===== src/Net/Init.antt =====
-- How the initialisation of a server of src/onion/net.c ends.
use checks.Prelude.{
  ℕ, ◌+◌, ◌-◌, ◌*◌, ◌%◌, ◌^◌, ◌≡◌, refl, ◌∙◌, Bool, true, false, ◌&&◌, Option, none, some, ◌∷◌,
  ◌==◌, arith,
}
use checks.Pool.{Pool, block, round_size_pow2, block_init, block_alloc}
use checks.Net.{
  Conf, ServerNet, NetStatic, static_is_full, conf_is_valid, no_net, net_at, bad_access, is_null,
  open_server, with_block, server_net_init, set_server,
}

-- A server that could not be opened: its block is taken in the pool and was handed to `free`, and the
-- count of the servers, which it was never part of, is one less.
pub record Failed (s : NetStatic) (offset : ℕ) (nets : Pool) (s' : NetStatic) : Type 0 where
  pub still_taken : s'.nets ≡ nets
  pub freed : s'.freed ≡ offset ∷ s.freed
  pub count : s'.count ≡ (s.count + 2 ^ 64 - 1) % 2 ^ 64
  pub closed : (s'.servers offset).initialized ≡ false

-- A server that was opened.
pub record Opened (s : NetStatic) (conf : Conf) (offset : ℕ) (nets barracks : Pool) (fd : ℕ)
    (s' : NetStatic) : Type 0 where
  pub taken : s'.nets ≡ nets
  pub freed : s'.freed ≡ s.freed
  pub count : s'.count ≡ (s.count + 1) % 2 ^ 64
  pub sock : (s'.servers offset).sock ≡ some fd
  pub peers : (s'.servers offset).peer_barracks ≡ some barracks
  pub limit : (s'.servers offset).peer_capable ≡ conf.peers_capable
  pub nobody : (s'.servers offset).peer_current ≡ 0
  pub others : (a : ℕ) → (a == offset) ≡ false → s'.servers a ≡ s.servers a

-- How an initialisation without a socket ends: with NULL if that can be closed, or else by what C leaves
-- open.
abbrev pub FailedInit : NetStatic → Conf → ℕ → ℕ → Pool → Bool → Type 0
FailedInit s conf peer_size offset nets true =
    (s' : NetStatic) × (server_net_init s conf peer_size none ≡ no_net s') × Failed s offset nets s'
FailedInit s conf peer_size offset nets false = server_net_init s conf peer_size none ≡ bad_access

self : (p : ℕ) → (p == p) ≡ true
self p = ground arith

module _ (s : NetStatic) (conf : Conf) (peer_size offset : ℕ) (nets : Pool)
    (valid : conf_is_valid conf ≡ true) (room : static_is_full s ≡ false)
    (given : block_alloc s.nets ≡ block offset nets) where
  reached :
      (sock : Option ℕ)
      → server_net_init s conf peer_size sock
        ≡ open_server (record s { nets = nets }) conf peer_size sock offset
  unfolding server_net_init with_block
  reached sock = rw (valid, room, given) refl

  module _ (rounded : ℕ) (barracks : Pool) (some_bytes : (peer_size == 0) ≡ false)
      (rounds : round_size_pow2 ((conf.peers_capable * peer_size) % 2 ^ 64) ≡ some rounded)
      (peers : block_init ((conf.peers_capable * peer_size) % 2 ^ 64) peer_size
        ≡ some barracks) where
    abbrev peopled : ServerNet
    peopled = record (s.servers offset) { initialized = false; peer_barracks = some barracks }

    abbrev left : NetStatic
    left = record s { nets = nets; servers = set_server offset peopled s.servers }

    abbrev running : ℕ → NetStatic
    running fd = record s {
      nets = nets;
      servers =
          set_server offset
            (record peopled {
              sock = some fd;
              peer_current = 0;
              peer_capable = conf.peers_capable;
              initialized = true;
            })
            s.servers;
      count = (s.count + 1) % 2 ^ 64;
    }

    pub with_sock :
        (fd : ℕ)
        → (s' : NetStatic) × (server_net_init s conf peer_size (some fd) ≡ net_at offset s')
          × Opened s conf offset nets barracks fd s'
    unfolding open_server
    with_sock fd = (
      running fd,
      reached (some fd) ∙ rw (some_bytes, rounds, peers, open_server) refl,
      record {
        taken = refl;
        freed = refl;
        count = refl;
        sock = rw (self offset) refl;
        peers = rw (self offset) refl;
        limit = rw (self offset) refl;
        nobody = rw (self offset) refl;
        others = λ a away. rw away refl;
      },
    )

-- What the initialisation of a server is to end with.
abbrev pub InitEnds : NetStatic → Conf → ℕ → ℕ → Pool → Pool → Option ℕ → Type 0
InitEnds s conf peer_size offset nets barracks none =
    FailedInit s conf peer_size offset nets (is_null (s.servers offset).sock && (offset == 0))
InitEnds s conf peer_size offset nets barracks (some fd) =
    (s' : NetStatic) × (server_net_init s conf peer_size (some fd) ≡ net_at offset s')
    × Opened s conf offset nets barracks fd s'
