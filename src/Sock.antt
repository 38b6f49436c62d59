-- ===== src/Sock.antt =====
-- The socket bookkeeping of fd.c and fd.h. Every operation takes the `sock_struct` and returns it
-- with its result; a NULL pointer that the code reads is the outcome `crashed`. `safe_malloc` ends
-- the process when there is no memory, so no operation sees a failed allocation.
pub mod Invariant
pub mod Accept
pub mod Release
pub mod Port
pub mod Stamp
pub mod Copy
use band_width_limiter.Base.{ℕ, zero, Bool, true, false, Option, none, some, if◌then◌else◌}
use band_width_limiter.Base.Int.{ℤ, pos, negsuc, ◌+ℤ◌, le_ℤ}
use band_width_limiter.Base.Outcome.{Outcome, ok, crashed, ◌>>=◌, checked}
use band_width_limiter.Tree.Order.{fd_ord}
use band_width_limiter.Tree.Shape.{Tree, leaf, Pointer, with_info, set_info}
use band_width_limiter.Tree.Query.{rb_exact_query}
use band_width_limiter.Tree.Insert.{rb_tree_insert}
use band_width_limiter.Tree.Delete.{rb_delete}

-- `struct timespec`
pub record Timespec : Type 0 where
  pub tv_sec : ℤ
  pub tv_nsec : ℤ

-- The value that `safe_malloc` leaves in a new structure.
abbrev pub no_time : Timespec
no_time = record { tv_sec = pos 0; tv_nsec = pos 0 }

pub record SocketFd : Type 0 where
  pub port : ℕ
  pub ref_count : ℤ

pub record AcpSocketFd : Type 0 where
  pub root_fd_number : ℤ
  pub start_time_active_read : Timespec
  pub start_time_active_write : Timespec

pub record SockStruct : Type 0 where
  pub sock_rb : Tree (ℤ × SocketFd)
  pub acp_socket_rb : Tree (ℤ × AcpSocketFd)

-- `__setup_sock_env__`: two empty trees.
unfoldable pub setup_sock_env : SockStruct
setup_sock_env = record { sock_rb = leaf; acp_socket_rb = leaf }

unfoldable pub init_sock : SockStruct → ℤ → ℕ → Outcome (SockStruct × Bool)
init_sock s sock_des port = elim (rb_exact_query s.sock_rb sock_des) [
  | none ↦ do
    t ← checked (rb_tree_insert s.sock_rb sock_des (record { port = port; ref_count = pos 0 }))
    ok (record s { sock_rb = t }, true)
  | some _ ↦ ok (s, false)
]

-- `register_sock` once both trees were searched.
unfoldable register_found :
    SockStruct
    → ℤ
    → ℤ
    → Option (Pointer (ℤ × SocketFd))
    → Option (Pointer (ℤ × AcpSocketFd))
    → Outcome (SockStruct × Bool)
register_found s org listen (some root) none = do
  t ← checked (
      rb_tree_insert s.acp_socket_rb listen (record {
        root_fd_number = org;
        start_time_active_read = no_time;
        start_time_active_write = no_time;
      }))
  let soc_str = root.entry.1
  ok (
    record s {
      sock_rb = set_info root (record soc_str { ref_count = soc_str.ref_count +ℤ pos 1 });
      acp_socket_rb = t;
    },
    true,
  )
register_found s org listen (some root) (some acp) = ok (s, false)
register_found s org listen none acp = ok (s, false)

unfoldable pub register_sock : SockStruct → ℤ → ℤ → Outcome (SockStruct × Bool)
unfolding register_found
register_sock s org_socket_fd listen_sock_fd =
    register_found s org_socket_fd listen_sock_fd (rb_exact_query s.sock_rb org_socket_fd)
      (rb_exact_query s.acp_socket_rb listen_sock_fd)

unfoldable pub is_acp_sock_fd_present : SockStruct → ℤ → Bool
is_acp_sock_fd_present s fd = elim (rb_exact_query s.acp_socket_rb fd) [
  | none ↦ false
  | some _ ↦ true
]

-- The new descriptor is inserted without a search for it, and no reference is counted.
unfoldable pub copy_fd : SockStruct → ℤ → ℤ → Outcome (SockStruct × Bool)
copy_fd s old_fd new_fd = elim (rb_exact_query s.acp_socket_rb old_fd) [
  | none ↦ ok (s, false)
  | some node ↦ do
    t ← checked (rb_tree_insert s.acp_socket_rb new_fd node.entry.1)
    ok (record s { acp_socket_rb = t }, true)
]

-- `none` is the result `false`, which leaves `*port` as it was. The second test of the code is of the
-- first pointer again, so a root that is not registered is read through NULL.
unfoldable pub get_dest_port : SockStruct → ℤ → Outcome (Option ℕ)
get_dest_port s acp_sock_fd = elim (rb_exact_query s.acp_socket_rb acp_sock_fd) [
  | none ↦ ok none
  | some node ↦ elim (rb_exact_query s.sock_rb node.entry.1.root_fd_number) [
    | none ↦ crashed
    | some root ↦ ok (some root.entry.1.port)
  ]
]

-- After the write of `ref_count`, at no reference the root goes. This is `sock_rb` after it.
unfoldable pub give_back : Pointer (ℤ × SocketFd) → SocketFd → Outcome (Tree (ℤ × SocketFd))
give_back root less =
    if le_ℤ less.ref_count (pos 0)
    then checked (rb_delete (with_info root less))
    else ok (set_info root less)

-- `soc_str->ref_count --` and what follows of the root.
unfoldable pub release_root : Pointer (ℤ × SocketFd) → Outcome (Tree (ℤ × SocketFd))
unfolding give_back
release_root root =
    let soc_str = root.entry.1 in
    give_back root (record soc_str { ref_count = soc_str.ref_count +ℤ negsuc 0 })

unfoldable pub unregister_socket_descriptor : SockStruct → ℤ → Outcome (SockStruct × Bool)
unfolding release_root
unregister_socket_descriptor s acp_sock_fd = elim (rb_exact_query s.acp_socket_rb acp_sock_fd) [
  | none ↦ ok (s, true)
  | some node ↦ elim (rb_exact_query s.sock_rb node.entry.1.root_fd_number) [
    | none ↦ crashed
    | some root ↦ do
      roots ← release_root root
      accepted ← checked (rb_delete node)
      ok (record { sock_rb = roots; acp_socket_rb = accepted }, true)
  ]
]

-- The flag is true for a read.
abbrev pub stamp : Bool → Timespec → AcpSocketFd → AcpSocketFd
stamp true time a = record a { start_time_active_read = time }
stamp false time a = record a { start_time_active_write = time }

unfoldable pub insert_start_time_of_packet : SockStruct → ℤ → Bool → Timespec → SockStruct × Bool
insert_start_time_of_packet s fd flag time = elim (rb_exact_query s.acp_socket_rb fd) [
  | none ↦ (s, false)
  | some node ↦ (record s { acp_socket_rb = set_info node (stamp flag time node.entry.1) }, true)
]

unfoldable pub get_start_time_of_packet : SockStruct → ℤ → Bool → Option Timespec
get_start_time_of_packet s fd flag = elim (rb_exact_query s.acp_socket_rb fd) [
  | none ↦ none
  | some node ↦
      some
        (if flag then node.entry.1.start_time_active_read else node.entry.1.start_time_active_write)
]
