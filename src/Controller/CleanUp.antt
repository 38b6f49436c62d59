-- ===== src/Controller/CleanUp.antt =====
-- The release of the controller, `__clean_up__` of interface.c, with `__reg_clean_up__` of register_env.c
-- and `__clean_sock__` of fd.c: what is freed, in its order.
use mathlib.Core.List.{Perm}
use mathlib.Core.List.Perm
use band_width_limiter.Base.{ℕ, Option, none, some, List, [], ◌∷◌, ◌++◌, map}
use band_width_limiter.Base.Int.{ℤ}
use band_width_limiter.Tree.Shape.{Tree, inorder}
use band_width_limiter.Tree.Destroy.{
  Freed, freed_key, freed_info, freed_node, freed_root, freed_nil, freed_tree, pieces, int_dest,
  info_dest, uint32_dest, rb_tree_destroy,
}
use band_width_limiter.Sock.{SocketFd, AcpSocketFd, SockStruct}
use band_width_limiter.Env.{PortStruct, RegisterEnv}
use band_width_limiter.Controller.{Controller}

-- A piece of memory: of the port table, of the accepted descriptors or of the roots, or one of the two
-- structures.
pub data Block : Type 0 where
  port_block : Freed (ℕ × PortStruct) → Block
  acp_block : Freed (ℤ × AcpSocketFd) → Block
  sock_block : Freed (ℤ × SocketFd) → Block
  reg_env_block soc_block : Block

unfoldable reg_clean_up : RegisterEnv → List Block
unfolding rb_tree_destroy int_dest info_dest uint32_dest
reg_clean_up env = elim env.port_rb [
  | none ↦ []
  | some t ↦ map port_block (rb_tree_destroy uint32_dest info_dest t)
]

unfoldable clean_sock : SockStruct → List Block
unfolding rb_tree_destroy int_dest info_dest
clean_sock s =
    map acp_block (rb_tree_destroy int_dest info_dest s.acp_socket_rb)
    ++ map sock_block (rb_tree_destroy int_dest info_dest s.sock_rb)

-- Both parts are there once `__init_env__` has returned, and the tests of `this_flag` hold.
unfoldable pub clean_up : Controller → List Block
unfolding reg_clean_up clean_sock
clean_up c =
    reg_clean_up c.reg_env_str ++ (reg_env_block ∷ (clean_sock c.soc_str ++ (soc_block ∷ [])))

-- The blocks of an entry: all three, or all but the key.
abbrev pub whole {ℓ} : {E : Type ℓ} → E → List (Freed E)
whole e = freed_key e ∷ freed_info e ∷ freed_node e ∷ []

abbrev pub but_key {ℓ} : {E : Type ℓ} → E → List (Freed E)
but_key e = freed_info e ∷ freed_node e ∷ []

-- A tree: those blocks of its entries, the sentinels and the structure.
abbrev pub blocks {ℓ} :
    {E : Type ℓ} → (E → List (Freed E)) → (Freed E → Block) → Tree E → List Block
blocks of_entry f t =
    map f (pieces of_entry (inorder t) ++ (freed_root ∷ freed_nil ∷ freed_tree ∷ []))

abbrev pub port_blocks : Option (Tree (ℕ × PortStruct)) → List Block
port_blocks none = []
port_blocks (some t) = blocks but_key port_block t
