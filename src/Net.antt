-- ===== src/Net.antt =====
-- The servers and peers of src/onion/net.c, over the pools of src/onion/pool.c, and
-- `onion_tcp_port_conf_check` of src/onion/socket.c. A pointer to a server or a peer is its offset in its
-- pool. What the system returns for sockets is an argument, and so are the sizes of the two structures.
pub mod Init
pub mod Peers
mod Tests
use checks.Prelude.{
  ℕ, zero, suc, ◌+◌, ◌-◌, ◌*◌, ◌%◌, ◌^◌, Bool, true, false, not, ◌&&◌, ◌||◌, Option, none, some,
  List, [], ◌∷◌, leb, ltb, ◌==◌, if◌then◌else◌,
}
use checks.Pool.{Pool, Ended, null, block, released, wild, round_size_pow2, block_init, block_alloc}

-- `struct onion_tcp_port_conf`, less what the check does not read, and the check.
pub record PortConf : Type 0 where
  pub domain : ℕ
  pub type : ℕ
  pub port : ℕ

abbrev pub tcp_port_conf_check : PortConf → Bool
tcp_port_conf_check c = not (c.domain == 0) && (not (c.type == 0) && not (c.port == 0))

-- `onion_server_net_conf`.
pub record Conf : Type 0 where
  pub peers_capable : ℕ
  pub queue_capable : ℕ
  pub port_conf : PortConf

-- `onion_peer_net`, less the server that is never set.
pub record Peer : Type 0 where
  pub sock : ℕ
  pub initialized : Bool

-- `onion_server_net`, less its two allocators, which are not used, and with the memory of its peers.
pub record ServerNet : Type 0 where
  pub sock : Option ℕ
  pub peer_barracks : Option Pool
  pub peer_current : ℕ
  pub peer_capable : ℕ
  pub initialized : Bool
  pub peers : ℕ → Peer

-- `onion_net_static_t`, with the memory of its servers and the pointers that were handed to `free`. The
-- count is a `long` in two's complement.
pub record NetStatic : Type 0 where
  pub nets : Pool
  pub capable : ℕ
  pub count : ℕ
  pub servers : ℕ → ServerNet
  pub freed : List ℕ

-- `count + 1 > capable`.
abbrev pub static_is_full : NetStatic → Bool
static_is_full s =
    let next = (s.count + 1) % 2 ^ 64 in if leb (2 ^ 63) next then false else ltb s.capable next

abbrev pub set_server : ℕ → ServerNet → (ℕ → ServerNet) → ℕ → ServerNet
set_server p net servers a = if a == p then net else servers a

-- `onion_server_net_exit` of a server whose pointers are NULL or were set for it: its socket and its pool of
-- peers are closed, and its block stays taken in its pool. `none` is a `free` of an address inside the memory
-- of the blocks, which C leaves open; only the first block has the address that the allocation gave.
unfoldable pub server_net_exit : NetStatic → ℕ → Option NetStatic
server_net_exit s p =
    let net = record (s.servers p) { initialized = false; sock = none; peer_barracks = none } in
    let closed = record s {
      servers = set_server p net s.servers;
      freed = p ∷ s.freed;
      count = (s.count + 2 ^ 64 - 1) % 2 ^ 64;
    } in
    if p == 0 then some closed else none

-- How the initialisation of a server ends: with NULL; with a server; or by a loop without end, or something
-- that C leaves open, such as an access behind the map of the pool.
pub data NetEnded : Type 0 where
  no_net : NetStatic → NetEnded
  net_at : ℕ → NetStatic → NetEnded
  bad_access : NetEnded

abbrev pub exit_ended : Option NetStatic → NetEnded
exit_ended none = bad_access
exit_ended (some s) = no_net s

abbrev pub is_null {ℓ} : {A : Type ℓ} → Option A → Bool
is_null none = true
is_null (some p) = false

-- From the block of the server on. The exit of a server that fails follows its pointers: the one to its
-- socket, and where the pool of the peers failed the one to that pool too, are what the block contained
-- before.
unfoldable pub open_server : NetStatic → Conf → ℕ → Option ℕ → ℕ → NetEnded
unfolding server_net_exit
open_server s conf peer_size sock p =
    let net = record (s.servers p) { initialized = false } in
    let bytes = (conf.peers_capable * peer_size) % 2 ^ 64 in
    elim (if peer_size == 0 then none else round_size_pow2 bytes) [
      | none ↦ bad_access
      | some rounded ↦ elim (block_init bytes peer_size) [
        | none ↦
            let left = record s { servers = set_server p net s.servers } in
            if is_null net.sock && is_null net.peer_barracks
            then exit_ended (server_net_exit left p)
            else bad_access
        | some barracks ↦
            let peopled = record net { peer_barracks = some barracks } in
            elim sock [
              | none ↦
                  let left = record s { servers = set_server p peopled s.servers } in
                  if is_null net.sock then exit_ended (server_net_exit left p) else bad_access
              | some fd ↦
                  let opened = record peopled {
                    sock = some fd;
                    peer_current = 0;
                    peer_capable = conf.peers_capable;
                    initialized = true;
                  } in
                  net_at p (record s {
                    servers = set_server p opened s.servers;
                    count = (s.count + 1) % 2 ^ 64;
                  })
            ]
      ]
    ]

-- What an allocation of a block comes to.
unfoldable pub with_block : NetStatic → Conf → ℕ → Option ℕ → Ended → NetEnded
unfolding open_server
with_block s conf peer_size sock (null p) = no_net (record s { nets = p })
with_block s conf peer_size sock (block offset p) =
    open_server (record s { nets = p }) conf peer_size sock offset
with_block s conf peer_size sock (released p) = bad_access
with_block s conf peer_size sock wild = bad_access

abbrev pub conf_is_valid : Conf → Bool
conf_is_valid conf =
    leb 1 conf.peers_capable && (leb 1 conf.queue_capable && tcp_port_conf_check conf.port_conf)

-- `onion_server_net_init`; `sock` is the socket that is created.
unfoldable pub server_net_init : NetStatic → Conf → ℕ → Option ℕ → NetEnded
unfolding with_block
server_net_init s conf peer_size sock =
    if not (conf_is_valid conf) || static_is_full s
    then no_net s
    else with_block s conf peer_size sock (block_alloc s.nets)

-- How the initialisation of a peer ends.
pub data PeerEnded : Type 0 where
  no_peer : ServerNet → PeerEnded
  peer_at : ℕ → ServerNet → PeerEnded
  peer_wild : PeerEnded

unfoldable pub seat_peer : ServerNet → ℕ → Ended → PeerEnded
seat_peer net sock (null p) = no_peer (record net { peer_barracks = some p })
seat_peer net sock (block offset p) = peer_at offset (record net {
  peer_barracks = some p;
  peers = λ a. if a == offset then record { sock = sock; initialized = true } else net.peers a;
})
seat_peer net sock (released p) = peer_wild
seat_peer net sock wild = peer_wild

-- `onion_peer_net_init`; `sock` is the address of the socket structure.
unfoldable pub peer_net_init : ServerNet → ℕ → PeerEnded
unfolding seat_peer
peer_net_init net sock =
    if not net.initialized || leb net.peer_capable (net.peer_current + 1)
    then no_peer net
    else elim net.peer_barracks [
      | none ↦ no_peer net
      | some barracks ↦ seat_peer net sock (block_alloc barracks)
    ]

-- `onion_accept_net`: whether it returns 0, and the server; `accepted` is the address of the structure on
-- the stack that the new connection is written to. Where no peer is made, that address is handed to `free` by
-- `onion_net_sock_exit`, which C leaves open: `none`.
unfoldable pub accept_net : ServerNet → Option ℕ → Option (Bool × ServerNet)
unfolding peer_net_init
accept_net net none = some (false, net)
accept_net net (some temp_sock) = elim (peer_net_init net temp_sock) [
  | no_peer n ↦ none
  | peer_at p n ↦ some (true, n)
  | peer_wild ↦ none
]

-- The loop of `onion_net_static_exit` over all blocks, taken or not, where the pointers of each server can be
-- followed.
unfoldable pub exit_loop : NetStatic → ℕ → ℕ → Option NetStatic
unfolding server_net_exit
exit_loop s index zero = some s
exit_loop s index (suc rounds) = elim (server_net_exit s (index * s.nets.block_size)) [
  | none ↦ none
  | some left ↦ exit_loop left (suc index) rounds
]

-- `onion_net_static_exit`, up to the release of the pool and the structure.
unfoldable pub net_static_exit : NetStatic → Option NetStatic
unfolding exit_loop
net_static_exit s = elim (exit_loop s 0 s.nets.block_max) [
  | none ↦ none
  | some left ↦ some (record left { count = 0; capable = 0 })
]

-- `onion_net_static_init` for the global pointer, where the structure is allocated or not: whether it
-- returns 0, and the pointer. `memory` is what the pool of servers contains. The outer `none` is the exit
-- of a structure whose pool was not set.
unfoldable pub net_static_init :
    Option NetStatic → Bool → (ℕ → ServerNet) → ℕ → ℕ → Option (Bool × Option NetStatic)
net_static_init (some big_smoke) allocated memory capable net_size = some (false, some big_smoke)
net_static_init none false memory capable net_size = some (false, none)
net_static_init none true memory capable net_size =
    elim (block_init (capable * net_size) net_size) [
      | none ↦ none
      | some nets ↦ some (
        true,
        some (record { nets = nets; capable = capable; count = 0; servers = memory; freed = [] }),
      )
    ]
